-- ===== src/Discovery/Flow.antt =====
-- `discoverDevices` of the two discoveries over time: a call of requester/utils.cpp is spawned, its
-- answer runs the callback, which may spawn the next call, and in the end the devices go through
-- `SPDMDiscovery::discover` (requester/spdm_discovery.cpp) to a client.
use spdm_working.Common.{List, [], ◌∷◌, Option, none, some, Bool, true, false}
use spdm_working.Exceptions.{Exception, Result, ok, threw, unfinished}
use spdm_working.Exceptions.Action.{Action, return}
use spdm_working.Async.{Function, get_managed_objects_async}
use spdm_working.Discovery.{ManagedObjects, ResponderInfo}
use spdm_working.Discovery.Mctp as Mctp
use spdm_working.Discovery.Tcp as Tcp

-- The discovery that `main` makes, by how it is built.
pub data Protocol : Type 0 where
  mctp_protocol tcp_protocol : Protocol

-- The call whose answer is awaited, with the variables that its callback has captured.
pub data Call : Type 0 where
  mctp_objects tcp_objects : Call
  em_configs : List ResponderInfo → Call

-- The client's state, the call under way, and the exceptions that the asynchronous context was
-- left with, the last one first.
pub record Flow (S : Type 0) : Type 0 where
  pub client : S
  pub waiting : Option Call
  pub unhandled : List Exception

-- The call that a discovery begins with.
abbrev pub first_call : Protocol → Call
first_call mctp_protocol = mctp_objects
first_call tcp_protocol = tcp_objects

-- `std::function<void(bool, ManagedObjects)>`.
abbrev pub Callback : Type 0 → Type 0
Callback S = Function (Flow S) (Bool × ManagedObjects)

abbrev pub spawned : {S : Type 0} → Result (Unit {0}) × Flow S → Flow S
spawned (ok u, fl) = fl
spawned (threw e, fl) = record fl { unhandled = e ∷ fl.unhandled }
spawned (unfinished, fl) = fl

module _ {S : Type 0} (callback : List ResponderInfo → S → S) where
  -- `SPDMDiscovery::discover` logs the number of devices and passes them on.
  unfoldable pub deliver : List ResponderInfo → Action (Flow S) (Unit {0})
  deliver devices fl = return tt (record fl { client = callback devices fl.client })

  abbrev pub await : Call → Action (Flow S) (Unit {0})
  await call fl = return tt (record fl { waiting = some call })

  -- The callbacks of the three calls, by whether the call succeeded.
  unfoldable pub on_mctp_objects : Bool × ManagedObjects → Action (Flow S) (Unit {0})
  unfolding deliver
  on_mctp_objects (false, objects) = deliver []
  on_mctp_objects (true, objects) = await (em_configs (Mctp.process_managed_objects objects))

  unfoldable pub on_em_configs :
      List ResponderInfo → Bool × ManagedObjects → Action (Flow S) (Unit {0})
  unfolding deliver
  on_em_configs devices (false, em_objects) = deliver []
  on_em_configs devices (true, em_objects) = deliver (Mctp.parse_spdm_em_config devices em_objects)

  unfoldable pub on_tcp_objects : Bool × ManagedObjects → Action (Flow S) (Unit {0})
  unfolding deliver
  on_tcp_objects (false, objects) = deliver []
  on_tcp_objects (true, objects) = deliver (Tcp.process_managed_objects objects)

  abbrev pub on_answer : Call → Bool × ManagedObjects → Action (Flow S) (Unit {0})
  on_answer mctp_objects = on_mctp_objects
  on_answer tcp_objects = on_tcp_objects
  on_answer (em_configs devices) = on_em_configs devices

  -- The start of a discovery, by whether there is an asynchronous context.
  unfoldable pub discover : Protocol → Bool → Action (Flow S) (Unit {0})
  unfolding deliver
  discover protocol false = deliver []
  discover protocol true = await (first_call protocol)

  module _ (moved : Callback S → Callback S) (then_first : Bool) where
    abbrev pub answer_to : Option Call → Option ManagedObjects → Flow S → Flow S
    answer_to none answer fl = fl
    answer_to (some call) answer fl = spawned (
        get_managed_objects_async moved then_first (some (on_answer call)) answer
          (record fl { waiting = none }))

    -- The answer to the call under way arrives.
    unfoldable pub answered : Option ManagedObjects → Flow S → Flow S
    answered answer fl = answer_to fl.waiting answer fl

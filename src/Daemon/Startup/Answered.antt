-- ===== src/Daemon/Startup/Answered.antt =====
-- What an answer to the call under way leads to.
use spdm_working.Common.{
  ◌≡◌, refl, ap, ◌∙◌, List, [], ◌∷◌, ◌++◌, Option, none, some, Bool, true, false,
}
use spdm_working.Exceptions.{Exception, bad_function_call, ok}
use spdm_working.Config.{SecureSessionConfig}
use spdm_working.Async.Answers.{outcome, carried_out, get_managed_objects_async-told}
use spdm_working.Discovery.{ManagedObjects, ResponderInfo}
use spdm_working.Discovery.Mctp as Mctp
use spdm_working.Discovery.Tcp as Tcp
use spdm_working.Discovery.Flow.{
  Call, mctp_objects, tcp_objects, em_configs, Callback, Flow, spawned, deliver, on_mctp_objects,
  on_em_configs, on_tcp_objects, on_answer, answered,
}
use spdm_working.Daemon.{Platform, Daemon}
use spdm_working.Daemon.Policies.{FollowsPolicy, on_discovered-Follows}
use spdm_working.Daemon.Startup.{numbered, on_devices}
use spdm_working.Daemon.Startup.Kept.{on_discovered-devices}

-- What is yet to come: the devices delivered, if any are, and the exceptions.
abbrev pub to_come :
    Bool → Option Call → List (Option ManagedObjects) → Option (List ResponderInfo) × List Exception
to_come then_first none later = (none, [])
to_come then_first (some call) [] = (none, [])
to_come false (some call) (a ∷ later) = (some [], [])
to_come true (some call) (none ∷ later) = (none, bad_function_call ∷ [])
to_come true (some mctp_objects) (some objects ∷ later) =
    to_come true (some (em_configs (Mctp.process_managed_objects objects))) later
to_come true (some tcp_objects) (some objects ∷ later) =
    (some (Tcp.process_managed_objects objects), [])
to_come true (some (em_configs devices)) (some objects ∷ later) =
    (some (Mctp.parse_spdm_em_config devices objects), [])

on_answer-ok :
    {S : Type 0} (callback : List ResponderInfo → S → S) (call : Call) (a : Bool × ManagedObjects)
    (fl : Flow S)
    → (on_answer callback call a fl).0 ≡ ok tt
unfolding on_mctp_objects on_em_configs on_tcp_objects deliver
on_answer-ok callback mctp_objects (false, objects) fl = refl
on_answer-ok callback mctp_objects (true, objects) fl = refl
on_answer-ok callback tcp_objects (false, objects) fl = refl
on_answer-ok callback tcp_objects (true, objects) fl = refl
on_answer-ok callback (em_configs devices) (false, objects) fl = refl
on_answer-ok callback (em_configs devices) (true, objects) fl = refl

module _ {D : Type 0} (platform : Platform D) (cfg : SecureSessionConfig) where
  -- What the flow is left with, given what is yet to come.
  abbrev pub Comes :
      Option (List ResponderInfo) × List Exception → Flow (Daemon D) → Flow (Daemon D) → Type 0
  Comes (none, errors) fl fl' =
      (fl'.client.discovered_devices ≡ fl.client.discovered_devices)
      × (fl'.unhandled ≡ errors ++ fl.unhandled)
      × FollowsPolicy fl'.client
  Comes (some devices, errors) fl fl' =
      (fl'.client.discovered_devices ≡ numbered 0 devices)
      × (fl'.unhandled ≡ errors ++ fl.unhandled)
      × FollowsPolicy fl'.client

  -- Only the devices and the exceptions of the flow before matter.
  pub Comes-from :
      (c : Option (List ResponderInfo) × List Exception) (fl fl₁ fl' : Flow (Daemon D))
      → fl₁.client.discovered_devices ≡ fl.client.discovered_devices
      → fl₁.unhandled ≡ fl.unhandled
      → Comes c fl₁ fl'
      → Comes c fl fl'
  Comes-from (none, errors) fl fl₁ fl' d u (d', u', f) = (d' ∙ d, u' ∙ ap (λ x. errors ++ x) u, f)
  Comes-from (some devices, errors) fl fl₁ fl' d u (d', u', f) =
      (d', u' ∙ ap (λ x. errors ++ x) u, f)

  -- With no call under way nothing more is delivered.
  pub Comes-after :
      (c : Option (List ResponderInfo) × List Exception) (fl fl₁ fl' : Flow (Daemon D))
      → Comes c fl fl₁
      → Comes (none, []) fl₁ fl'
      → Comes c fl fl'
  Comes-after (none, errors) fl fl₁ fl' (d, u, f) (d', u', f') = (d' ∙ d, u' ∙ u, f')
  Comes-after (some devices, errors) fl fl₁ fl' (d, u, f) (d', u', f') = (d' ∙ d, u' ∙ u, f')

  -- The flow after an answer to the call.
  abbrev pub after_answer : Bool → Call → Option ManagedObjects → Flow (Daemon D) → Flow (Daemon D)
  after_answer then_first call a fl = spawned (
      carried_out (on_answer (on_devices platform cfg) call) (outcome then_first a)
        (record fl { waiting = none }))

  module _ (moved : Callback (Daemon D) → Callback (Daemon D))
      (is_empty : (f : Callback (Daemon D)) → moved f ≡ none) (then_first : Bool) where
    pub answered-told :
        (call : Call) (a : Option ManagedObjects) (fl : Flow (Daemon D))
        → fl.waiting ≡ some call
        → answered (on_devices platform cfg) moved then_first a fl
          ≡ after_answer then_first call a fl
    unfolding answered
    answered-told call a fl e = rw e (
        ap spawned (
          get_managed_objects_async-told moved then_first (on_answer (on_devices platform cfg) call)
            a (record fl { waiting = none }) (is_empty _)
            (on_answer-ok (on_devices platform cfg) call)))

  delivered-Comes :
      (then_first : Bool) (devices : List ResponderInfo) (later : List (Option ManagedObjects))
      (fl fl' : Flow (Daemon D))
      → FollowsPolicy fl.client
      → let next = record fl {
        client = on_devices platform cfg devices fl.client;
        waiting = none;
      } in
        (FollowsPolicy next.client → Comes (to_come then_first next.waiting later) next fl')
        → Comes (some devices, []) fl fl'
  delivered-Comes then_first devices later fl fl' f rest =
      let follows = on_discovered-Follows platform cfg (numbered 0 devices) fl.client f in
      let next = record fl { client = on_devices platform cfg devices fl.client; waiting = none } in
      Comes-after (some devices, []) fl next fl'
        (on_discovered-devices platform cfg (numbered 0 devices) fl.client, refl, follows)
        (rest follows)

  pub after_answer-Comes :
      (then_first : Bool) (call : Call) (a : Option ManagedObjects)
      (later : List (Option ManagedObjects)) (fl fl' : Flow (Daemon D))
      → FollowsPolicy fl.client
      → let next = after_answer then_first call a fl in
        (FollowsPolicy next.client → Comes (to_come then_first next.waiting later) next fl')
        → Comes (to_come then_first (some call) (a ∷ later)) fl fl'
  unfolding on_mctp_objects on_em_configs on_tcp_objects deliver
  after_answer-Comes false mctp_objects none later fl fl' f rest =
      delivered-Comes false [] later fl fl' f rest
  after_answer-Comes false mctp_objects (some objects) later fl fl' f rest =
      delivered-Comes false [] later fl fl' f rest
  after_answer-Comes false tcp_objects none later fl fl' f rest =
      delivered-Comes false [] later fl fl' f rest
  after_answer-Comes false tcp_objects (some objects) later fl fl' f rest =
      delivered-Comes false [] later fl fl' f rest
  after_answer-Comes false (em_configs devices) none later fl fl' f rest =
      delivered-Comes false [] later fl fl' f rest
  after_answer-Comes false (em_configs devices) (some objects) later fl fl' f rest =
      delivered-Comes false [] later fl fl' f rest
  after_answer-Comes true call none later fl fl' f rest =
      Comes-after (none, bad_function_call ∷ []) fl
        (record fl { waiting = none; unhandled = bad_function_call ∷ fl.unhandled }) fl'
        (refl, refl, f) (rest f)
  after_answer-Comes true mctp_objects (some objects) later fl fl' f rest =
      Comes-from (to_come true (some (em_configs (Mctp.process_managed_objects objects))) later) fl
        (record fl { waiting = some (em_configs (Mctp.process_managed_objects objects)) }) fl' refl
        refl (rest f)
  after_answer-Comes true tcp_objects (some objects) later fl fl' f rest =
      delivered-Comes true (Tcp.process_managed_objects objects) later fl fl' f rest
  after_answer-Comes true (em_configs devices) (some objects) later fl fl' f rest =
      delivered-Comes true (Mctp.parse_spdm_em_config devices objects) later fl fl' f rest

  pub answered-none :
      (moved : Callback (Daemon D) → Callback (Daemon D)) (then_first : Bool)
      (a : Option ManagedObjects) (fl : Flow (Daemon D))
      → fl.waiting ≡ none
      → answered (on_devices platform cfg) moved then_first a fl ≡ fl
  unfolding answered
  answered-none moved then_first a fl e = rw e refl

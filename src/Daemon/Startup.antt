-- ===== src/Daemon/Startup.antt =====
-- The discovery that `main` of requester/spdmd.cpp starts, and what the event loop then runs: the
-- answers of the asynchronous calls, and between them the changes of the policy.
pub mod Kept
pub mod Answered
pub mod Discovers
use spdm_working.Common.{ℕ, ◌+◌, List, [], ◌∷◌, Option, none, some, Bool, true, false}
use spdm_working.Config.{SecureSessionConfig}
use spdm_working.Responder as Responder
use spdm_working.Discovery.{ManagedObjects, ResponderInfo}
use spdm_working.Discovery.Flow.{Protocol, Callback, Flow, discover, answered}
use spdm_working.Daemon.{Platform, Daemon, on_discovered, set_enabled, set_secure_session_enabled}

-- The devices with their transports, which get their numbers in order.
unfoldable pub numbered : ℕ → List ResponderInfo → List Responder.ResponderInfo
numbered t [] = []
numbered t (info ∷ infos) =
    record {
      object_path = info.object_path;
      device_object_path = info.device_object_path;
      transport = some t;
    }
    ∷ numbered (t + 1) infos

pub data Step : Type 0 where
  answer : Option ManagedObjects → Step
  enabled_set secure_session_enabled_set : Bool → Step

module _ {D : Type 0} (platform : Platform D) (cfg : SecureSessionConfig) where
  -- The callback that `main` gives to `discover`.
  abbrev pub on_devices : List ResponderInfo → Daemon D → Daemon D
  on_devices devices s = on_discovered platform cfg (numbered 0 devices) s

  module _ (moved : Callback (Daemon D) → Callback (Daemon D)) (then_first : Bool) where
    unfoldable pub step : Step → Flow (Daemon D) → Flow (Daemon D)
    step (answer a) fl = answered on_devices moved then_first a fl
    step (enabled_set b) fl = record fl { client = (set_enabled platform cfg b fl.client).1 }
    step (secure_session_enabled_set b) fl = record fl {
      client = (set_secure_session_enabled platform cfg b fl.client).1;
    }

    unfoldable pub steps : List Step → Flow (Daemon D) → Flow (Daemon D)
    unfolding step
    steps [] fl = fl
    steps (e ∷ es) fl = steps es (step e fl)

    -- From the policy's start on.
    unfoldable pub discover_and_run : Protocol → List Step → Daemon D → Flow (Daemon D)
    unfolding steps
    discover_and_run protocol es s =
        steps es
          (discover on_devices protocol true
            (record { client = s; waiting = none; unhandled = [] })).1

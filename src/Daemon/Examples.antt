-- ===== src/Daemon/Examples.antt =====
-- Runs of the daemon, and the theorems at concrete inputs.
use spdm_working.Common.{ℕ, ◌≡◌, Bool, refl, List, [], ◌∷◌, none, some, true, false, ◌↔◌}
use spdm_working.Common.Text.{codes}
use spdm_working.Libspdm.{context_of}
use spdm_working.Libspdm.Demo.{demo, demo_world}
use spdm_working.Config.{apply_secure_session_config}
use spdm_working.Responder.{ResponderInfo}
use spdm_working.Daemon.Demo.{platform, config}
use spdm_working.Daemon.{
  Daemon, Event, discovered, enabled_set, secure_session_enabled_set, run, process_device,
}
use spdm_working.Discovery.{same_text, find}
use spdm_working.Discovery.Demo.{objects, em_objects}
use spdm_working.Discovery.Flow.{mctp_protocol}
use spdm_working.Daemon.Startup as Startup
use spdm_working.Daemon.Startup.Discovers.{Discovers, discover_and_run-Discovers}
use spdm_working.Daemon.PolicyFile.{Cache, items, boolean, load, load_items, boot}
use spdm_working.Daemon.PolicyFile.Boot.{IsObject, StartsWith, boot-FollowsPolicy}
use spdm_working.Daemon.Made.{is_made, process_device-made_iff}
use spdm_working.Daemon.Policies.{FollowsPolicy, run-FollowsPolicy}

abbrev start_state : Daemon ℕ
start_state = record {
  enabled = false;
  secure_session_enabled = false;
  discovered_devices = [];
  responders = [];
  world = demo_world;
}

abbrev events : List (Event platform)
events =
    discovered (
      record { object_path = codes "/a"; device_object_path = codes "/d"; transport = some 0 }
      ∷ record { object_path = codes "/b"; device_object_path = codes "/e"; transport = none }
      ∷ [])
    ∷ enabled_set true
    ∷ secure_session_enabled_set true
    ∷ []

run-FollowsPolicy_example : FollowsPolicy (run platform config events start_state)
run-FollowsPolicy_example = run-FollowsPolicy platform config events start_state refl

abbrev cache : Cache
cache =
    items ((codes "enabled", boolean true) ∷ (codes "secure_session_enabled", boolean true) ∷ [])

abbrev booted : Daemon ℕ
booted = record start_state { enabled = true }

-- Only `enabled` is read of the file.
boots : boot cache false false demo_world ≡ some booted
unfolding boot load load_items same_text
boots = refl

cache-IsObject : IsObject cache
unfolding find same_text
cache-IsObject = (refl, (refl, tt))

boot-FollowsPolicy_example :
    StartsWith cache false true
    × (◌≡◌ {A = Bool} false false)
    × FollowsPolicy (run platform config events booted)
boot-FollowsPolicy_example =
    boot-FollowsPolicy platform config cache false false demo_world booted events cache-IsObject
      boots

abbrev device_a : ResponderInfo
device_a = record { object_path = codes "/a"; device_object_path = codes "/d"; transport = some 0 }

process_device-made_iff_example :
    let a = apply_secure_session_config demo 8 0 config demo_world in
    let c = demo.init_connection 0 a.1.device in
    (is_made (process_device platform config true device_a demo_world).0 ≡ true) ↔ (
      (true ≡ true)
      × (demo.is_error a.0 ≡ false)
      × (context_of 0 a.1 ≡ true)
      × (demo.is_error c.0 ≡ false))
process_device-made_iff_example =
    process_device-made_iff platform config true device_a 0 demo_world refl

-- The policy changes while the entity manager is being asked.
abbrev started_steps : List Startup.Step
started_steps =
    Startup.answer (some objects)
    ∷ Startup.enabled_set true
    ∷ Startup.answer (some em_objects)
    ∷ Startup.secure_session_enabled_set true
    ∷ []

discover_and_run-Discovers_example :
    Discovers true mctp_protocol (some objects ∷ some em_objects ∷ []) (
      Startup.discover_and_run platform config
        (λ f. none)
        true
        mctp_protocol
        started_steps
        start_state)
discover_and_run-Discovers_example =
    discover_and_run-Discovers platform config (λ f. none) true mctp_protocol started_steps
      start_state (λ f. refl) refl refl

-- ===== src/Daemon/Main.antt =====
-- `main` of requester/spdmd.cpp as a whole: the policy's file, the discovery, what the event loop runs
-- until it is stopped, and the clean-up.
pub mod Kept
pub mod Ends
use spdm_working.Common.{ℕ, List, [], Bool, if◌then◌else◌}
use spdm_working.Exceptions.{Exception}
use spdm_working.Libspdm.{World}
use spdm_working.Config.{SecureSessionConfig}
use spdm_working.Discovery.Flow.{Protocol, Callback, Flow}
use spdm_working.Daemon.{Platform, Daemon, clear}
use spdm_working.Daemon.PolicyFile.{Cache, Loaded, loaded, failed, terminated, load}
use spdm_working.Daemon.Startup.{Step, discover_and_run}

-- How the program ends: with a status, or by an exception that leaves `main`.
pub data Exit (D : Type 0) : Type 0 where
  returned : ℕ → World D → Exit D
  escaped : Exit D

abbrev pub exit_success : ℕ
exit_success = 0

abbrev pub exit_failure : ℕ
exit_failure = 1

module _ {D : Type 0} (platform : Platform D) (cfg : SecureSessionConfig)
    (moved : Callback (Daemon D) → Callback (Daemon D)) (then_first : Bool)
    (returns : List Exception → Bool) where
  -- After `ctx.run()`, which returns or throws by the exceptions that the context was left with.
  unfoldable pub clean_up : Flow (Daemon D) → Exit D
  clean_up fl =
      if returns fl.unhandled
      then returned exit_success (clear platform fl.client.responders fl.client.world)
      else escaped

  -- The variables of `main` when the policy is loaded.
  abbrev pub variables : Bool → Bool → World D → Daemon D
  variables enabled secure w = record {
    enabled = enabled;
    secure_session_enabled = secure;
    discovered_devices = [];
    responders = [];
    world = w;
  }

  abbrev pub after_load : Protocol → List Step → Bool → World D → Loaded → Exit D
  after_load protocol es secure w (loaded enabled) =
      clean_up
        (discover_and_run platform cfg moved then_first protocol es (variables enabled secure w))
  after_load protocol es secure w failed = returned exit_failure w
  after_load protocol es secure w terminated = escaped

  -- By the file, the defaults of the two properties, and what the event loop runs.
  unfoldable pub main : Cache → Bool → Bool → Protocol → List Step → World D → Exit D
  unfolding load clean_up
  main cache enabled secure protocol es w = after_load protocol es secure w (load cache enabled)

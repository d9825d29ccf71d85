-- ===== src/Fleet/Run.antt =====
-- What the daemon does to its transports, in every run.
use spdm_working.Common.{◌≡◌, List, [], none, Bool, true, ◌&&◌}
use spdm_working.Exceptions.{Exception}
use spdm_working.Libspdm.{World}
use spdm_working.Discovery.Flow.{Protocol, Callback}
use spdm_working.Daemon.PolicyFile.{Cache}
use spdm_working.Daemon.PolicyFile.Boot.{IsObject}
use spdm_working.Daemon.Startup.{Step}
use spdm_working.Daemon.Startup.Discovers.{answers, one_failed}
use spdm_working.Daemon.Main.{main}
use spdm_working.Daemon.Main.Ends.{EndsFor, main-EndsFor}
use spdm_working.Config.{SecureSessionConfig}
use spdm_working.Daemon.{Platform, Daemon, Event, run}
use spdm_working.Daemon.Kept.{run-Kept}
use spdm_working.Fleet.{Devices, Class, platform_of}
use spdm_working.Fleet.Sound.{AllSound, behind-Respects, initialize-AllSound}

-- For transports of either class, from a world where each is sound: after every sequence of
-- discoveries and policy changes, whatever calls fail and however often a transport is set up again,
-- each transport has as its only open descriptor its socket, if it has one, its context is null or
-- a block that is still allocated, and the context that the daemon's guards test for is that one.
pub run-AllSound :
    {E : Type 0} (class : Class E) (base : Platform E) (cfg : SecureSessionConfig)
    (events : List (Event (platform_of class base))) (s : Daemon (Devices E))
    → AllSound s.world
    → AllSound (run (platform_of class base) cfg events s).world
run-AllSound class base cfg events s p =
    run-Kept (platform_of class base) cfg AllSound (behind-Respects base.lib)
      (initialize-AllSound class) events s p

-- Where a moved-from function is empty, `ctx.run()` returns if no exception was left with the context,
-- the policy's file has no key twice, and every transport is sound: whatever answers arrive and
-- however the policy changes, the whole of `main` ends as the file decides. If it cannot be opened,
-- `main` returns `EXIT_FAILURE` and has done nothing. If it holds no JSON, or no Boolean for
-- `enabled`, an exception leaves `main`. Otherwise `main` returns `EXIT_SUCCESS`, and after the
-- last responder has ended every transport is sound; or an exception leaves it, `then`'s closure is
-- made first, and a call of the discovery failed.
pub main-EndsSound :
    {E : Type 0} (class : Class E) (base : Platform E) (cfg : SecureSessionConfig)
    (moved : Callback (Daemon (Devices E)) → Callback (Daemon (Devices E))) (then_first : Bool)
    (returns : List Exception → Bool) (cache : Cache) (enabled secure : Bool) (protocol : Protocol)
    (es : List Step) (w : World (Devices E))
    → ((f : Callback (Daemon (Devices E))) → moved f ≡ none)
    → returns [] ≡ true
    → IsObject cache
    → AllSound w
    → EndsFor AllSound cache enabled w (then_first && one_failed protocol (answers es)) (
        main
          (platform_of class base)
          cfg
          moved
          then_first
          returns
          cache
          enabled
          secure
          protocol
          es
          w)
main-EndsSound class base cfg moved then_first returns cache enabled secure protocol es w is_empty
      when_none m p =
    main-EndsFor (platform_of class base) cfg AllSound (behind-Respects base.lib)
      (initialize-AllSound class) moved is_empty then_first returns when_none protocol es cache
      enabled secure w m p

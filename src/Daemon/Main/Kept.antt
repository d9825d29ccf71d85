-- ===== src/Daemon/Main/Kept.antt =====
-- What the discovery and the event loop of `main` keep of the world.
use spdm_working.Common.{◌≡◌, refl, ℕ, List, [], ◌∷◌, Option, none, some, Bool, true, false}
use spdm_working.Libspdm.{World}
use spdm_working.Libspdm.Kept.{Respects}
use spdm_working.Config.{SecureSessionConfig}
use spdm_working.Discovery.{ManagedObjects, ResponderInfo}
use spdm_working.Discovery.Mctp as Mctp
use spdm_working.Discovery.Tcp as Tcp
use spdm_working.Discovery.Flow.{
  Protocol, Call, mctp_objects, tcp_objects, em_configs, Callback, Flow, discover, on_mctp_objects,
  on_em_configs, on_tcp_objects, deliver, answered,
}
use spdm_working.Daemon.{Platform, Daemon}
use spdm_working.Daemon.Kept.{on_discovered-Kept, set_enabled-Kept, set_secure_session_enabled-Kept}
use spdm_working.Daemon.Startup.{
  numbered, Step, answer, enabled_set, secure_session_enabled_set, on_devices, step, steps,
  discover_and_run,
}
use spdm_working.Daemon.Startup.Answered.{after_answer, answered-none, answered-told}

module _ {D : Type 0} (platform : Platform D) (cfg : SecureSessionConfig) (P : World D → Type 0)
    (respects : (t : ℕ) → Respects platform.lib P t)
    (initializes : (t : ℕ) (w : World D) → P w → P (platform.initialize t w).1) where
  delivered-Kept :
      (devices : List ResponderInfo) (fl : Flow (Daemon D))
      → P fl.client.world
      → P (on_devices platform cfg devices fl.client).world
  delivered-Kept devices fl p =
      on_discovered-Kept platform cfg P respects initializes (numbered 0 devices) fl.client p

  after_answer-Kept :
      (then_first : Bool) (call : Call) (a : Option ManagedObjects) (fl : Flow (Daemon D))
      → P fl.client.world
      → P (after_answer platform cfg then_first call a fl).client.world
  unfolding on_mctp_objects on_em_configs on_tcp_objects deliver
  after_answer-Kept false mctp_objects none fl p = delivered-Kept [] fl p
  after_answer-Kept false mctp_objects (some objects) fl p = delivered-Kept [] fl p
  after_answer-Kept false tcp_objects none fl p = delivered-Kept [] fl p
  after_answer-Kept false tcp_objects (some objects) fl p = delivered-Kept [] fl p
  after_answer-Kept false (em_configs devices) none fl p = delivered-Kept [] fl p
  after_answer-Kept false (em_configs devices) (some objects) fl p = delivered-Kept [] fl p
  after_answer-Kept true call none fl p = p
  after_answer-Kept true mctp_objects (some objects) fl p = p
  after_answer-Kept true tcp_objects (some objects) fl p =
      delivered-Kept (Tcp.process_managed_objects objects) fl p
  after_answer-Kept true (em_configs devices) (some objects) fl p =
      delivered-Kept (Mctp.parse_spdm_em_config devices objects) fl p

  module _ (moved : Callback (Daemon D) → Callback (Daemon D))
      (is_empty : (f : Callback (Daemon D)) → moved f ≡ none) (then_first : Bool) where
    answered-Kept :
        (waiting : Option Call) (a : Option ManagedObjects) (fl : Flow (Daemon D))
        → fl.waiting ≡ waiting
        → P fl.client.world
        → P (answered (on_devices platform cfg) moved then_first a fl).client.world
    answered-Kept none a fl e p = rw (answered-none platform cfg moved then_first a fl e) p
    answered-Kept (some call) a fl e p =
        rw (answered-told platform cfg moved is_empty then_first call a fl e)
          (after_answer-Kept then_first call a fl p)

    step-Kept :
        (e : Step) (fl : Flow (Daemon D))
        → P fl.client.world
        → P (step platform cfg moved then_first e fl).client.world
    unfolding step
    step-Kept (answer a) fl p = answered-Kept fl.waiting a fl refl p
    step-Kept (enabled_set b) fl p =
        set_enabled-Kept platform cfg P respects initializes b fl.client p
    step-Kept (secure_session_enabled_set b) fl p =
        set_secure_session_enabled-Kept platform cfg P respects initializes b fl.client p

    steps-Kept :
        (es : List Step) (fl : Flow (Daemon D))
        → P fl.client.world
        → P (steps platform cfg moved then_first es fl).client.world
    unfolding steps
    steps-Kept [] fl p = p
    steps-Kept (e ∷ es) fl p =
        steps-Kept es (step platform cfg moved then_first e fl) (step-Kept e fl p)

    pub discover_and_run-Kept :
        (protocol : Protocol) (es : List Step) (s : Daemon D)
        → P s.world
        → P (discover_and_run platform cfg moved then_first protocol es s).client.world
    unfolding discover_and_run discover
    discover_and_run-Kept protocol es s p =
        steps-Kept es
          (discover (on_devices platform cfg) protocol true
            (record { client = s; waiting = none; unhandled = [] })).1
          p

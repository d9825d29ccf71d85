-- ===== src/Daemon/Startup/Discovers.antt =====
-- What the discovery of `main` leaves in its variables, whatever happens meanwhile.
use spdm_working.Common.{
  ◌≡◌, refl, ap, subst, ◌∙◌, List, [], ◌∷◌, Option, none, some, Bool, true, false, ◌&&◌,
  if◌then◌else◌,
}
use spdm_working.Exceptions.{bad_function_call}
use spdm_working.Config.{SecureSessionConfig}
use spdm_working.Discovery.{ManagedObjects, ResponderInfo}
use spdm_working.Discovery.Mctp as Mctp
use spdm_working.Discovery.Tcp as Tcp
use spdm_working.Discovery.Flow.{
  Protocol, mctp_protocol, tcp_protocol, Call, Callback, Flow, first_call, discover, answered,
}
use spdm_working.Daemon.{Platform, Daemon, set_enabled, set_secure_session_enabled}
use spdm_working.Daemon.Policies.{
  FollowsPolicy, set_enabled-Follows, set_secure_session_enabled-Follows,
}
use spdm_working.Daemon.Startup.{
  numbered, Step, answer, enabled_set, secure_session_enabled_set, on_devices, step, steps,
  discover_and_run,
}
use spdm_working.Daemon.Startup.Kept.{set_enabled-devices, set_secure_session_enabled-devices}
use spdm_working.Daemon.Startup.Answered.{
  to_come, Comes, Comes-from, after_answer, answered-none, answered-told, after_answer-Comes,
}

-- The answers among the steps, in order.
abbrev pub answers : List Step → List (Option ManagedObjects)
answers [] = []
answers (answer a ∷ es) = a ∷ answers es
answers (enabled_set b ∷ es) = answers es
answers (secure_session_enabled_set b ∷ es) = answers es

-- The devices that the discovery selects, once the answers that it needs are there.
abbrev pub selected : Protocol → List (Option ManagedObjects) → List ResponderInfo
selected mctp_protocol (objects ∷ em_objects ∷ later) =
    Mctp.discover_devices true objects em_objects
selected tcp_protocol (objects ∷ later) = Tcp.discover_devices true objects
selected _ _ = []

-- One of the calls failed.
abbrev pub one_failed : Protocol → List (Option ManagedObjects) → Bool
one_failed mctp_protocol (none ∷ later) = true
one_failed mctp_protocol (some objects ∷ none ∷ later) = true
one_failed tcp_protocol (none ∷ later) = true
one_failed _ _ = false

nothing_to_come :
    (then_first : Bool) (waiting : Option Call) → to_come then_first waiting [] ≡ (none, [])
nothing_to_come true none = refl
nothing_to_come false none = refl
nothing_to_come true (some call) = refl
nothing_to_come false (some call) = refl

module _ {D : Type 0} (platform : Platform D) (cfg : SecureSessionConfig)
    (moved : Callback (Daemon D) → Callback (Daemon D)) (then_first : Bool)
    (is_empty : (f : Callback (Daemon D)) → moved f ≡ none) where
  steps-Comes :
      (es : List Step) (fl : Flow (Daemon D))
      → FollowsPolicy fl.client
      → Comes platform cfg
          (to_come then_first fl.waiting (answers es))
          fl
          (steps platform cfg moved then_first es fl)
  unfolding steps step
  steps-Comes [] fl f = rw (nothing_to_come then_first fl.waiting) (refl, refl, f)
  steps-Comes (enabled_set b ∷ es) fl f =
      let next = record fl { client = (set_enabled platform cfg b fl.client).1 } in
      Comes-from platform cfg (to_come then_first fl.waiting (answers es)) fl next _
        (set_enabled-devices platform cfg b fl.client) refl
        (steps-Comes es next (set_enabled-Follows platform cfg b fl.client f))
  steps-Comes (secure_session_enabled_set b ∷ es) fl f =
      let next = record fl { client = (set_secure_session_enabled platform cfg b fl.client).1 } in
      Comes-from platform cfg (to_come then_first fl.waiting (answers es)) fl next _
        (set_secure_session_enabled-devices platform cfg b fl.client) refl
        (steps-Comes es next (set_secure_session_enabled-Follows platform cfg b fl.client f))
  steps-Comes (answer a ∷ es) fl f = by_call fl.waiting refl (steps-Comes es)
    where
      by_call :
          (waiting : Option Call)
          → fl.waiting ≡ waiting
          → ((fl₁ : Flow (Daemon D))
              → FollowsPolicy fl₁.client
              → Comes platform cfg
                  (to_come then_first fl₁.waiting (answers es))
                  fl₁
                  (steps platform cfg moved then_first es fl₁))
          → Comes platform cfg (to_come then_first waiting (a ∷ answers es)) fl (
              steps platform cfg moved then_first es
                (answered (on_devices platform cfg) moved then_first a fl))
      by_call none e ih = rw (answered-none platform cfg moved then_first a fl e) (
          subst
            (λ w.
              Comes platform cfg (to_come then_first w (answers es)) fl
                (steps platform cfg moved then_first es fl))
            e (ih fl f))
      by_call (some call) e ih =
          rw (answered-told platform cfg moved is_empty then_first call a fl e) (
            after_answer-Comes platform cfg then_first call a (answers es) fl _ f
              (ih (after_answer platform cfg then_first call a fl)))

-- What `main` is left with, by the order of the two captures of each callback.
abbrev pub Discovers :
    {D : Type 0} → Bool → Protocol → List (Option ManagedObjects) → Flow (Daemon D) → Type 0
Discovers then_first protocol as_answered fl =
    (fl.client.discovered_devices
      ≡ numbered 0 (if then_first then selected protocol as_answered else []))
    × (fl.unhandled
        ≡ (if then_first && one_failed protocol as_answered then bad_function_call ∷ [] else []))
    × FollowsPolicy fl.client

Comes-Discovers :
    {D : Type 0} (platform : Platform D) (cfg : SecureSessionConfig) (then_first : Bool)
    (protocol : Protocol) (as_answered : List (Option ManagedObjects)) (fl fl' : Flow (Daemon D))
    → fl.client.discovered_devices ≡ []
    → fl.unhandled ≡ []
    → Comes platform cfg (to_come then_first (some (first_call protocol)) as_answered) fl fl'
    → Discovers then_first protocol as_answered fl'
unfolding numbered Mctp.discover_devices Mctp.get_spdm_em_configs Tcp.discover_devices
Comes-Discovers platform cfg true mctp_protocol [] fl fl' d u (d', u', f) = (d' ∙ d, u' ∙ u, f)
Comes-Discovers platform cfg true mctp_protocol (none ∷ []) fl fl' d u (d', u', f) =
    (d' ∙ d, u' ∙ ap (◌∷◌ bad_function_call) u, f)
Comes-Discovers platform cfg true mctp_protocol (none ∷ a ∷ later) fl fl' d u (d', u', f) =
    (d' ∙ d, u' ∙ ap (◌∷◌ bad_function_call) u, f)
Comes-Discovers platform cfg true mctp_protocol (some o ∷ []) fl fl' d u (d', u', f) =
    (d' ∙ d, u' ∙ u, f)
Comes-Discovers platform cfg true mctp_protocol (some o ∷ none ∷ later) fl fl' d u (d', u', f) =
    (d' ∙ d, u' ∙ ap (◌∷◌ bad_function_call) u, f)
Comes-Discovers platform cfg true mctp_protocol (some o ∷ some em ∷ later) fl fl' d u (d', u', f) =
    (d', u' ∙ u, f)
Comes-Discovers platform cfg true tcp_protocol [] fl fl' d u (d', u', f) = (d' ∙ d, u' ∙ u, f)
Comes-Discovers platform cfg true tcp_protocol (none ∷ later) fl fl' d u (d', u', f) =
    (d' ∙ d, u' ∙ ap (◌∷◌ bad_function_call) u, f)
Comes-Discovers platform cfg true tcp_protocol (some o ∷ later) fl fl' d u (d', u', f) =
    (d', u' ∙ u, f)
Comes-Discovers platform cfg false protocol [] fl fl' d u (d', u', f) = (d' ∙ d, u' ∙ u, f)
Comes-Discovers platform cfg false protocol (a ∷ later) fl fl' d u (d', u', f) = (d', u' ∙ u, f)

-- Where a moved-from function is empty: from a daemon that knows no devices and follows the policy,
-- whatever answers arrive and however the policy changes before, between and after them. If `then`'s
-- closure was made first, the daemon knows the devices that the discovery selects from the answers,
-- none while an answer is missing; and where one of the calls failed, no callback is told and the
-- context is left with `std::bad_function_call`. If `upon_error`'s closure was made first, it
-- never knows a device. In both cases it follows the policy.
pub discover_and_run-Discovers :
    {D : Type 0} (platform : Platform D) (cfg : SecureSessionConfig)
    (moved : Callback (Daemon D) → Callback (Daemon D)) (then_first : Bool) (protocol : Protocol)
    (es : List Step) (s : Daemon D)
    → ((f : Callback (Daemon D)) → moved f ≡ none)
    → s.discovered_devices ≡ []
    → FollowsPolicy s
    → Discovers then_first protocol
        (answers es)
        (discover_and_run platform cfg moved then_first protocol es s)
unfolding discover_and_run discover
discover_and_run-Discovers platform cfg moved then_first protocol es s is_empty d f =
    let fl : Flow (Daemon _) = record {
      client = s;
      waiting = some (first_call protocol);
      unhandled = [];
    } in
    Comes-Discovers platform cfg then_first protocol (answers es) fl _ d refl
      (steps-Comes platform cfg moved then_first is_empty es fl f)

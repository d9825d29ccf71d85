-- ===== src/Daemon/Policies.antt =====
-- What holds of the responders after any events, by the two properties of the policy.
use spdm_working.Common.{◌≡◌, refl, List, [], ◌∷◌, Bool, true, false, All}
use spdm_working.Libspdm.{World}
use spdm_working.Config.{SecureSessionConfig}
use spdm_working.Responder.{ResponderInfo, Responder}
use spdm_working.Daemon.{
  Platform, Daemon, Event, set_enabled, set_secure_session_enabled, on_discovered, handle, run,
  discovered, enabled_set, secure_session_enabled_set,
}
use spdm_working.Daemon.Responders.{
  IsAllowed, close_all-IsAllowed, open_all-IsAllowed, process_discovered_devices-IsAllowed,
}

-- With the policy off there is no responder.
abbrev pub Follows : Bool → Bool → List Responder → Type 0
Follows false secure rs = rs ≡ []
Follows true secure rs = All (IsAllowed secure) rs

abbrev pub FollowsPolicy : {D : Type 0} → Daemon D → Type 0
FollowsPolicy s = Follows s.enabled s.secure_session_enabled s.responders

module _ {D : Type 0} (platform : Platform D) (cfg : SecureSessionConfig) where
  -- The events on a daemon of given variables.
  module _ (devices : List ResponderInfo) (rs : List Responder) (w : World D) where
    abbrev daemon : Bool → Bool → Daemon D
    daemon enabled secure = record {
      enabled = enabled;
      secure_session_enabled = secure;
      discovered_devices = devices;
      responders = rs;
      world = w;
    }

    on_discovered_lem :
        (found : List ResponderInfo) (enabled secure : Bool)
        → Follows enabled secure rs
        → FollowsPolicy (on_discovered platform cfg found (daemon enabled secure))
    unfolding on_discovered
    on_discovered_lem found true secure f =
        process_discovered_devices-IsAllowed platform cfg secure found rs w
    on_discovered_lem found false secure f = f

    set_enabled_lem :
        (new_value enabled secure : Bool)
        → Follows enabled secure rs
        → FollowsPolicy (set_enabled platform cfg new_value (daemon enabled secure)).1
    unfolding set_enabled
    set_enabled_lem true true secure f = f
    set_enabled_lem false false secure f = f
    set_enabled_lem true false secure f =
        process_discovered_devices-IsAllowed platform cfg secure devices rs w
    set_enabled_lem false true secure f = refl

    set_secure_session_enabled_lem :
        (new_value enabled secure : Bool)
        → Follows enabled secure rs
        → FollowsPolicy
            (set_secure_session_enabled platform cfg new_value (daemon enabled secure)).1
    unfolding set_secure_session_enabled
    set_secure_session_enabled_lem true true true f = f
    set_secure_session_enabled_lem false true false f = f
    set_secure_session_enabled_lem true false true f = f
    set_secure_session_enabled_lem true false false f = f
    set_secure_session_enabled_lem false false true f = f
    set_secure_session_enabled_lem false false false f = f
    set_secure_session_enabled_lem true true false f = open_all-IsAllowed platform cfg false rs w f
    set_secure_session_enabled_lem false true true f = close_all-IsAllowed platform cfg true rs w f

  pub on_discovered-Follows :
      (devices : List ResponderInfo) (s : Daemon D)
      → FollowsPolicy s
      → FollowsPolicy (on_discovered platform cfg devices s)
  unfolding on_discovered
  on_discovered-Follows devices s f =
      on_discovered_lem s.discovered_devices s.responders s.world devices s.enabled
        s.secure_session_enabled f

  pub set_enabled-Follows :
      (enabled : Bool) (s : Daemon D)
      → FollowsPolicy s
      → FollowsPolicy (set_enabled platform cfg enabled s).1
  unfolding set_enabled
  set_enabled-Follows enabled s f =
      set_enabled_lem s.discovered_devices s.responders s.world enabled s.enabled
        s.secure_session_enabled f

  pub set_secure_session_enabled-Follows :
      (enabled : Bool) (s : Daemon D)
      → FollowsPolicy s
      → FollowsPolicy (set_secure_session_enabled platform cfg enabled s).1
  unfolding set_secure_session_enabled
  set_secure_session_enabled-Follows enabled s f =
      set_secure_session_enabled_lem s.discovered_devices s.responders s.world enabled s.enabled
        s.secure_session_enabled f

  handle-Follows :
      (e : Event platform) (s : Daemon D)
      → FollowsPolicy s
      → FollowsPolicy (handle platform cfg e s)
  unfolding handle
  handle-Follows (discovered devices) s f = on_discovered-Follows devices s f
  handle-Follows (enabled_set b) s f = set_enabled-Follows b s f
  handle-Follows (secure_session_enabled_set b) s f = set_secure_session_enabled-Follows b s f

  -- From a state that follows the policy, as the daemon starts in, every sequence of discoveries
  -- and changes of the two properties leads to one: while `Enabled` is false there is no
  -- responder, while `SecureSessionEnabled` is false no responder has an active session, and every
  -- responder has a transport.
  pub run-FollowsPolicy :
      (events : List (Event platform)) (s : Daemon D)
      → FollowsPolicy s
      → FollowsPolicy (run platform cfg events s)
  unfolding run
  run-FollowsPolicy [] s f = f
  run-FollowsPolicy (e ∷ es) s f =
      run-FollowsPolicy es (handle platform cfg e s) (handle-Follows e s f)

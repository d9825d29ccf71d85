-- ===== src/Daemon/Startup/Kept.antt =====
-- The devices that were discovered last stay when the policy changes.
use spdm_working.Common.{◌≡◌, refl, List, Bool, true, false, Bool-cases, inl, inr}
use spdm_working.Config.{SecureSessionConfig}
use spdm_working.Responder as Responder
use spdm_working.Daemon.{
  Platform, Daemon, same, on_discovered, set_enabled, set_secure_session_enabled, on_enabled_change,
  on_secure_session_enabled_change,
}

module _ {D : Type 0} (platform : Platform D) (cfg : SecureSessionConfig) where
  pub on_discovered-devices :
      (devices : List Responder.ResponderInfo) (s : Daemon D)
      → (on_discovered platform cfg devices s).discovered_devices ≡ devices
  unfolding on_discovered
  on_discovered-devices devices s = elim (Bool-cases s.enabled) [
    | inl e ↦ rw e refl
    | inr e ↦ rw e refl
  ]

  on_enabled_change-devices :
      (old new : Bool) (s : Daemon D)
      → (on_enabled_change platform cfg old new s).discovered_devices ≡ s.discovered_devices
  unfolding on_enabled_change
  on_enabled_change-devices true true s = refl
  on_enabled_change-devices true false s = refl
  on_enabled_change-devices false true s = refl
  on_enabled_change-devices false false s = refl

  pub set_enabled-devices :
      (b : Bool) (s : Daemon D)
      → (set_enabled platform cfg b s).1.discovered_devices ≡ s.discovered_devices
  unfolding set_enabled
  set_enabled-devices b s =
      let s' = record s { enabled = b } in
      elim (Bool-cases (same b s.enabled)) [
        | inl e ↦ rw e refl
        | inr e ↦ rw e (on_enabled_change-devices s.enabled b s')
      ]

  on_secure_session_enabled_change-devices :
      (old new enabled : Bool) (s : Daemon D)
      → s.enabled ≡ enabled
      → (on_secure_session_enabled_change platform cfg old new s).discovered_devices
        ≡ s.discovered_devices
  unfolding on_secure_session_enabled_change
  on_secure_session_enabled_change-devices true true enabled s e = refl
  on_secure_session_enabled_change-devices false false enabled s e = refl
  on_secure_session_enabled_change-devices true false true s e = rw e refl
  on_secure_session_enabled_change-devices true false false s e = rw e refl
  on_secure_session_enabled_change-devices false true true s e = rw e refl
  on_secure_session_enabled_change-devices false true false s e = rw e refl

  pub set_secure_session_enabled-devices :
      (b : Bool) (s : Daemon D)
      → (set_secure_session_enabled platform cfg b s).1.discovered_devices ≡ s.discovered_devices
  unfolding set_secure_session_enabled
  set_secure_session_enabled-devices b s =
      let s' = record s { secure_session_enabled = b } in
      elim (Bool-cases (same b s.secure_session_enabled)) [
        | inl e ↦ rw e refl
        | inr e ↦
            rw e (
              on_secure_session_enabled_change-devices s.secure_session_enabled b s.enabled s' refl)
      ]

-- ===== src/Daemon/Made.antt =====
-- For which devices requester/spdmd.cpp makes a responder.
use spdm_working.Common.{
  ℕ, ◌≡◌, ◌↔◌, refl, sym, ap, ◌∙◌, Option, none, some, Bool, true, false, not, ◌&&◌, arith,
  Bool-cases, inl, inr,
}
use spdm_working.Exceptions.{Result, ok, threw, unfinished}
use spdm_working.Libspdm.{Libspdm, World, context_of}
use spdm_working.Integrity.{Component, State, require_context}
use spdm_working.Integrity.Certificates.{initialize_spdm_connection}
use spdm_working.Config.{SecureSessionConfig, apply_secure_session_config}
use spdm_working.Responder.{ResponderInfo, Responder, constructed, members, new_responder}
use spdm_working.Daemon.{
  Platform, with_constructed, construct, prepare_on, process_device, has_transport,
}

abbrev pub is_made : Option Responder → Bool
is_made none = false
is_made (some r) = true

abbrev is_ok : {A : Type 0} → Result A → Bool
is_ok (ok a) = true
is_ok _ = false

initialize_spdm_connection-ok :
    {D : Type 0} (lib : Libspdm D) (component : Component) (t : ℕ) (s : State D)
    → component.transport ≡ some t
    → is_ok (initialize_spdm_connection lib component s).0
      ≡ (context_of t s.world && not (lib.is_error (lib.init_connection t s.world.device).0))
unfolding initialize_spdm_connection require_context
initialize_spdm_connection-ok lib component t s e = ground (arith, e)

constructed-is_ok :
    {D : Type 0} (r : Responder) (result : Result (Unit {0}) × State D)
    → is_ok (constructed r result).0 ≡ is_ok result.0
constructed-is_ok r (ok u, s) = refl
constructed-is_ok r (threw e, s) = refl
constructed-is_ok r (unfinished, s) = refl

module _ {D : Type 0} (platform : Platform D) (cfg : SecureSessionConfig) where
  with_constructed-is_made :
      (secure : Bool) (transport : Option ℕ) (result : Result Responder) (w : World D)
      → is_made (with_constructed platform cfg secure transport (result, w)).0 ≡ is_ok result
  with_constructed-is_made secure transport (ok r) w =
      elim (Bool-cases (has_transport transport && secure)) [
        | inl e ↦ rw e refl
        | inr e ↦ rw e refl
      ]
  with_constructed-is_made secure transport (threw e) w = refl
  with_constructed-is_made secure transport unfinished w = refl

  construct-is_made :
      (secure : Bool) (info : ResponderInfo) (t : ℕ) (w : World D)
      → info.transport ≡ some t
      → is_made (construct platform cfg secure info w).0 ≡ (
          context_of t w && not (platform.lib.is_error (platform.lib.init_connection t w.device).0))
  unfolding construct new_responder members
  construct-is_made secure info t w e =
      let r = new_responder platform.lib platform.filename platform.clock info w in
      with_constructed-is_made secure info.transport r.0 r.1
      ∙ constructed-is_ok _ _
      ∙ initialize_spdm_connection-ok platform.lib _ t _ e

  -- The three guards in turn: the initialization, the configuration, and what the
  -- constructor comes to.
  guarded :
      (secure : Bool) (info : ResponderInfo) (t : ℕ) (w w₁ w₂ : World D) (initialized failed : Bool)
      → platform.initialize t w ≡ (initialized, w₁)
      → let r = apply_secure_session_config platform.lib platform.version_shift t cfg w₁ in
        (platform.lib.is_error r.0 ≡ failed)
        → r.1 ≡ w₂
        → info.transport ≡ some t
        → is_made (process_device platform cfg secure info w).0
          ≡ (initialized && (not failed && is_made (construct platform cfg secure info w₂).0))
  unfolding process_device prepare_on
  guarded secure info t w w₁ w₂ false failed i f e h = rw (h, i) refl
  guarded secure info t w w₁ w₂ true true i f e h = rw (h, i, f) refl
  guarded secure info t w w₁ w₂ true false i f e h = rw (h, i, f, e) refl

all_four :
    (a b c d : Bool)
    → ((a && (not b && (c && not d))) ≡ true)
      ↔ ((a ≡ true) × (b ≡ false) × (c ≡ true) × (d ≡ false))
all_four a b c d = ground arith

-- For a device with a transport: the daemon makes a responder for it exactly when the transport is
-- initialized, the secure-session settings are applied without an error, the transport then has a
-- context, and the connection returns no error; a session that cannot be opened does not matter.
pub process_device-made_iff :
    {D : Type 0} (platform : Platform D) (cfg : SecureSessionConfig) (secure : Bool)
    (info : ResponderInfo) (t : ℕ) (w : World D)
    → info.transport ≡ some t
    → let i = platform.initialize t w in
      let a = apply_secure_session_config platform.lib platform.version_shift t cfg i.1 in
      let c = platform.lib.init_connection t a.1.device in
      (is_made (process_device platform cfg secure info w).0 ≡ true) ↔ (
        (i.0 ≡ true)
        × (platform.lib.is_error a.0 ≡ false)
        × (context_of t a.1 ≡ true)
        × (platform.lib.is_error c.0 ≡ false))
process_device-made_iff platform cfg secure info t w e =
    let i = platform.initialize t w in
    let a = apply_secure_session_config platform.lib platform.version_shift t cfg i.1 in
    let c = platform.lib.init_connection t a.1.device in
    let made =
      guarded platform cfg secure info t w i.1 a.1 i.0 (platform.lib.is_error a.0) refl refl refl e
      ∙ ap (λ b. i.0 && (not (platform.lib.is_error a.0) && b))
          (construct-is_made platform cfg secure info t a.1 e) in
    let four =
      all_four i.0 (platform.lib.is_error a.0) (context_of t a.1) (platform.lib.is_error c.0) in
    ((λ h. four.0 (sym made ∙ h)), λ h. made ∙ four.1 h)

-- ===== src/Fleet/Apart.antt =====
-- Processing one device touches its own transport only, and calls libspdm with its own context only.
use spdm_working.Common.{
  ℕ, ◌≡◌, ◌≢◌, ◌==◌, refl, ap, sym, ◌∙◌, some, Bool, false, Bool-cases, inl, inr, arith,
}
use spdm_working.Libspdm.{Libspdm, World, Transport, set_transport, DataType, DataValue}
use spdm_working.Machine.{Machine}
use spdm_working.Setup.{SpdmTransport}
use spdm_working.Libspdm.Kept.{Respects}
use spdm_working.Config.{SecureSessionConfig}
use spdm_working.Responder.{ResponderInfo}
use spdm_working.Daemon.{Platform, process_device}
use spdm_working.Daemon.Kept.{process_device-Kept}
use spdm_working.Fleet.{Devices, Class, initialize, behind, platform_of, members_of, machine_of}

-- A transport has the members, the account and the settings that it had, and what `view` shows of the
-- devices is the same.
abbrev pub Untouched : {E A : Type 0} → ℕ → (E → A) → World (Devices E) → World (Devices E) → Type 0
Untouched u view w w' =
    (w'.device.members u ≡ w.device.members u)
    × (w'.device.accounts u ≡ w.device.accounts u)
    × (w'.transports u ≡ w.transports u)
    × (view w'.device.device ≡ view w.device.device)

-- The daemon's calls of libspdm with the context of a transport, and the transport's set-up, do not
-- change what `view` shows of the devices.
abbrev pub Unseen : {E A : Type 0} → Class E → Libspdm E → (E → A) → ℕ → Type 0
Unseen {E} class lib view t =
    ((d : E) → view (lib.init_connection t d).1 ≡ view d)
    × ((d : E) → view (lib.get_digest t d).1 ≡ view d)
    × ((slot : ℕ) (d : E) → view (lib.get_certificate t slot d).1 ≡ view d)
    × ((psk : Bool) (hash slot policy : ℕ) (d : E)
        → view (lib.start_session t psk hash slot policy d).1 ≡ view d)
    × ((id attrs : ℕ) (d : E) → view (lib.stop_session t id attrs d).1 ≡ view d)
    × ((id : ℕ) (d : E) → view (lib.heartbeat t id d).1 ≡ view d)
    × ((key : DataType) (value : DataValue) (d : E) → view (lib.set_data t key value d).1 ≡ view d)
    × ((d : E) → view (lib.get_base_asym_algo t d).1 ≡ view d)
    × ((members : SpdmTransport) (m : Machine E)
        → view (class.initialize t members m).2.device ≡ view m.device)

module _ {E A : Type 0} (u : ℕ) (view : E → A) (w₀ : World (Devices E)) where
  set_transport-Untouched :
      (t : ℕ) (transport : Transport) (w : World (Devices E))
      → (u == t) ≡ false
      → Untouched u view w₀ w
      → Untouched u view w₀ (set_transport t transport w)
  set_transport-Untouched t transport w h (m, a, c, v) = (m, a, rw h c, v)

  behind-Untouched :
      (class : Class E) (lib : Libspdm E) (t : ℕ)
      → (u == t) ≡ false
      → Unseen class lib view t
      → Respects (behind lib) (Untouched u view w₀) t
  behind-Untouched class lib t h
        (init, digest, certificate, started, stopped, beaten, set, asked, initialized) =
      record {
        init_connection = λ w (m, a, c, v). (m, a, c, init _ ∙ v);
        get_digest = λ w (m, a, c, v). (m, a, c, digest _ ∙ v);
        get_certificate = λ slot w (m, a, c, v). (m, a, c, certificate slot _ ∙ v);
        start_session =
            λ psk hash slot policy w (m, a, c, v). (m, a, c, started psk hash slot policy _ ∙ v);
        stop_session = λ id attrs w (m, a, c, v). (m, a, c, stopped id attrs _ ∙ v);
        heartbeat = λ id w (m, a, c, v). (m, a, c, beaten id _ ∙ v);
        set_data = λ k value w (m, a, c, v). (m, a, c, set k value _ ∙ v);
        get_base_asym_algo = λ w (m, a, c, v). (m, a, c, asked _ ∙ v);
        use_version = λ version w p. set_transport-Untouched t _ w h p;
        use_flags = λ flags w p. set_transport-Untouched t _ w h p;
      }

  initialize-Untouched :
      (class : Class E) (lib : Libspdm E) (t : ℕ)
      → (u == t) ≡ false
      → Unseen class lib view t
      → Untouched u view w₀ (initialize class t w₀).1
  unfolding initialize
  initialize-Untouched class lib t h
        (init, digest, certificate, started, stopped, beaten, set, asked, initialized) =
      rw h (refl, refl, refl, initialized (members_of t w₀) (machine_of t w₀.device))

-- Where neither the calls of libspdm with the context of the device's transport nor the set-up of that
-- transport change what `view` shows of the devices: whatever fails while the device is set up,
-- configured, connected and given a session, it still shows the same, so that libspdm was called
-- with no other context; and every other transport has the members, the open descriptors, the
-- allocated blocks, the context, the version and the flags that it had.
pub process_device-Untouched :
    {E A : Type 0} (class : Class E) (base : Platform E) (cfg : SecureSessionConfig) (secure : Bool)
    (info : ResponderInfo) (u : ℕ) (view : E → A) (w : World (Devices E))
    → info.transport ≢ some u
    → ((t : ℕ) → info.transport ≡ some t → Unseen class base.lib view t)
    → Untouched u view w (process_device (platform_of class base) cfg secure info w).1
process_device-Untouched class base cfg secure info u view w other unseen =
    process_device-Kept (platform_of class base) cfg (Untouched u view w) secure info w
      (λ t e. behind-Untouched u view w class base.lib t (differs t e) (unseen t e))
      (refl, refl, refl, refl)
      (λ t e. initialize-Untouched u view w class base.lib t (differs t e) (unseen t e))
  where
    differs : (t : ℕ) → info.transport ≡ some t → (u == t) ≡ false
    differs t e = elim (Bool-cases (u == t)) [
      | inl h ↦ let same : u ≡ t = ground (arith, h) in absurd (other (e ∙ ap some (sym same)))
      | inr h ↦ h
    ]

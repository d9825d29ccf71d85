-- ===== src/Fleet/Sound.antt =====
-- What the calls of libspdm and the set-up of any transport keep of all transports.
use spdm_working.Common.{ℕ, ◌≡◌, ◌==◌, refl, sym, ap, ◌∙◌, Bool-cases, inl, inr, arith}
use spdm_working.Libspdm.{Libspdm, World, Transport, set_transport}
use spdm_working.Libspdm.Kept.{Respects}
use spdm_working.Setup.{is_set}
use spdm_working.Fleet.{Devices, Sound, Class, machine_of, members_of, initialize, behind}

-- Every transport is sound, and has a context for its callers exactly when its member is one.
abbrev pub AllSound : {E : Type 0} → World (Devices E) → Type 0
AllSound w =
    (u : ℕ)
    → Sound (w.device.members u) (w.device.accounts u).blocks (w.device.accounts u).descriptors
      × ((w.transports u).spdm_context ≡ is_set (w.device.members u).spdm_context)

module _ {E : Type 0} where
  context_kept :
      (t : ℕ) (transport : Transport) (w : World (Devices E)) (u : ℕ)
      → transport.spdm_context ≡ (w.transports t).spdm_context
      → ((set_transport t transport w).transports u).spdm_context ≡ (w.transports u).spdm_context
  context_kept t transport w u e = elim (Bool-cases (u == t)) [
    | inl h ↦
        let same : u ≡ t = ground (arith, h) in
        rw h (e ∙ ap (λ v. (w.transports v).spdm_context) (sym same))
    | inr h ↦ rw h refl
  ]

  set_transport-AllSound :
      (t : ℕ) (transport : Transport) (w : World (Devices E))
      → transport.spdm_context ≡ (w.transports t).spdm_context
      → AllSound w
      → AllSound (set_transport t transport w)
  set_transport-AllSound t transport w e p u = ((p u).0, context_kept t transport w u e ∙ (p u).1)

  pub behind-Respects : (lib : Libspdm E) (t : ℕ) → Respects (behind lib) AllSound t
  behind-Respects lib t = record {
    init_connection = λ w p. p;
    get_digest = λ w p. p;
    get_certificate = λ slot w p. p;
    start_session = λ psk hash slot policy w p. p;
    stop_session = λ id attrs w p. p;
    heartbeat = λ id w p. p;
    set_data = λ k v w p. p;
    get_base_asym_algo = λ w p. p;
    use_version = λ version w p.
        set_transport-AllSound t (record (w.transports t) { use_version = version }) w refl p;
    use_flags = λ flags w p.
        set_transport-AllSound t
          (record (w.transports t) { use_requester_capability_flags = flags }) w refl p;
  }

  pub initialize-AllSound :
      (class : Class E) (t : ℕ) (w : World (Devices E))
      → AllSound w
      → AllSound (initialize class t w).1
  unfolding initialize
  initialize-AllSound class t w p u = elim (Bool-cases (u == t)) [
    | inl h ↦ rw h (class.initialize-Sound t (members_of t w) (machine_of t w.device) (p t).0, refl)
    | inr h ↦ rw h (p u)
  ]

-- ===== src/Client/Protocol/Ran.antt =====
-- When the protocol completes, and which slot's certificate it asks for.
use spdm_working.Common.{
  ℕ, zero, suc, ◌+◌, ◌<◌, ◌≤◌, ◌≡◌, ◌↔◌, refl, subst, dec_lt, ◌⊎◌, inl, inr, Bool, true, false,
  arith, if◌then◌else◌,
}
use spdm_working.Libspdm.{Libspdm}
use spdm_working.Client.Protocol.{
  has_slot, find_slot_from, find_slot, Operations, run_spdm_protocol,
}

-- The least of the slots from `i` to below `top` whose bit the mask has; or 0, where it has none.
abbrev pub IsFirstSlot : ℕ → ℕ → ℕ → ℕ → Type 0
IsFirstSlot slot_mask i top slot =
    ((i ≤ slot)
      × (slot < top)
      × (has_slot slot_mask slot ≡ true)
      × ((j : ℕ) → i ≤ j → j < slot → has_slot slot_mask j ≡ false))
    ⊎ ((slot ≡ 0) × ((j : ℕ) → i ≤ j → j < top → has_slot slot_mask j ≡ false))

extended :
    (slot_mask i top : ℕ)
    → has_slot slot_mask i ≡ false
    → ((j : ℕ) → i + 1 ≤ j → j < top → has_slot slot_mask j ≡ false)
    → (j : ℕ) → i ≤ j
    → j < top
    → has_slot slot_mask j ≡ false
extended slot_mask i top e all j a b = elim (dec_lt i j) [
  | yes later ↦ all j (omega arith) b
  | no here ↦ let same : i ≡ j = omega arith in subst (λ k. has_slot slot_mask k ≡ false) same e
]

step-IsFirstSlot :
    (slot_mask n i later : ℕ) (b : Bool)
    → has_slot slot_mask i ≡ b
    → IsFirstSlot slot_mask (i + 1) (i + 1 + n) later
    → IsFirstSlot slot_mask i (i + suc n) (if b then i else later)
step-IsFirstSlot slot_mask n i later true e h =
    inl (omega arith, omega arith, e, λ j a b. absurd (omega arith))
step-IsFirstSlot slot_mask n i later false e (inl (a, b, c, all)) =
    inl (omega (arith, a), omega (arith, b), c, extended slot_mask i _ e all)
step-IsFirstSlot slot_mask n i later false e (inr (z, all)) =
    inr (z, λ j a b. extended slot_mask i (i + 1 + n) e all j a (omega (arith, b)))

find_slot_from-IsFirstSlot :
    (slot_mask n i : ℕ) → IsFirstSlot slot_mask i (i + n) (find_slot_from n i slot_mask)
unfolding find_slot_from
find_slot_from-IsFirstSlot slot_mask zero i = inr (refl, λ j a b. absurd (omega arith))
find_slot_from-IsFirstSlot slot_mask (suc n) i =
    step-IsFirstSlot slot_mask n i (find_slot_from n (i + 1) slot_mask) (has_slot slot_mask i) refl
      (find_slot_from-IsFirstSlot slot_mask n (i + 1))

three_tests :
    {D : Type 0} (a b c : Bool) (x y z w : D)
    → let r : Bool × D =
        if a then (false, x) else if b then (false, y) else if c then (false, z) else (true, w) in
      (r.0 ≡ true) ↔ ((a ≡ false) × (b ≡ false) × (c ≡ false))
three_tests true b c x y z w = ((λ e. absurd cc), λ h. absurd cc)
three_tests false true c x y z w = ((λ e. absurd cc), λ h. absurd cc)
three_tests false false true x y z w = ((λ e. absurd cc), λ h. absurd cc)
three_tests false false false x y z w = ((λ e. (refl, refl, refl)), λ h. refl)

-- For a connection, digests and a certificate chain, each obtained in turn: `runSpdmProtocol` succeeds exactly when none
-- of the three statuses is an error, whatever becomes of the measurements; and the slot whose chain
-- it asks for is the least of the eight that the mask of the digests has, or 0 if it has none.
pub run_spdm_protocol-succeeds_iff :
    {D : Type 0} (lib : Libspdm D) (operations : Operations) (context : ℕ) (d : D)
    → let connection = lib.init_connection context d in
      let digests = lib.get_digest context connection.1 in
      let slot = find_slot digests.0.1 in
      let chain = lib.get_certificate context slot digests.1 in
      (((run_spdm_protocol lib operations context d).0 ≡ true) ↔ (
        (lib.is_error connection.0 ≡ false)
        × (lib.is_error digests.0.0 ≡ false)
        × (lib.is_error chain.0.0 ≡ false)))
      × IsFirstSlot digests.0.1 0 8 slot
unfolding run_spdm_protocol find_slot
run_spdm_protocol-succeeds_iff lib operations context d =
    let connection = lib.init_connection context d in
    let digests = lib.get_digest context connection.1 in
    let slot = find_slot digests.0.1 in
    let chain = lib.get_certificate context slot digests.1 in
    let counted =
      lib.get_measurement context 0 operations.total_number_of_measurements slot chain.1 in
    let measured = lib.get_measurement context 0 operations.all_measurements slot counted.1 in
    (
      three_tests (lib.is_error connection.0) (lib.is_error digests.0.0) (lib.is_error chain.0.0)
          connection.1 digests.1 chain.1 measured.1,
      find_slot_from-IsFirstSlot digests.0.1 8 0,
    )

-- ===== src/Client/Protocol.antt =====
-- `runSpdmProtocol` of requester/spdm_simple_client.cpp.
pub mod Ran
use spdm_working.Common.{
  ℕ, zero, suc, ◌+◌, ◌==◌, ◌<<◌, bit_and, not, List, Bool, true, false, if◌then◌else◌,
}
use spdm_working.Libspdm.{Libspdm, Status}

-- Whether the mask has the slot's bit.
unfoldable pub has_slot : ℕ → ℕ → Bool
has_slot slot_mask i = not (bit_and slot_mask (1 << i) == 0)

-- The loop from `i` on, with `n` rounds to go.
unfoldable pub find_slot_from : ℕ → ℕ → ℕ → ℕ
find_slot_from zero i slot_mask = 0
find_slot_from (suc n) i slot_mask =
    let later = find_slot_from n (i + 1) slot_mask in if has_slot slot_mask i then i else later

unfoldable pub find_slot : ℕ → ℕ
unfolding find_slot_from
find_slot slot_mask = find_slot_from 8 0 slot_mask

-- The measurement operations of the SPDM headers.
pub record Operations : Type 0 where
  pub total_number_of_measurements : ℕ
  pub all_measurements : ℕ

module _ {D : Type 0} (lib : Libspdm D) (operations : Operations) (context : ℕ) where
  -- The statuses of both requests for measurements are only printed.
  abbrev pub after_certificate : ℕ → (Status × List ℕ) × D → Bool × D
  after_certificate slot ((status, cert_chain), d) =
      if lib.is_error status
      then (false, d)
      else (let counted =
            lib.get_measurement context 0 operations.total_number_of_measurements slot d in
          let measured = lib.get_measurement context 0 operations.all_measurements slot counted.1 in
          (true, measured.1))

  abbrev pub after_digests : (Status × ℕ × List ℕ) × D → Bool × D
  after_digests ((status, slot_mask, digests), d) =
      if lib.is_error status
      then (false, d)
      else after_certificate (find_slot slot_mask)
          (lib.get_certificate context (find_slot slot_mask) d)

  abbrev pub after_init : Status × D → Bool × D
  after_init (status, d) =
      if lib.is_error status then (false, d) else after_digests (lib.get_digest context d)

  unfoldable pub run_spdm_protocol : D → Bool × D
  run_spdm_protocol d = after_init (lib.init_connection context d)

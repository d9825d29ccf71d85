-- ===== src/Integrity/Certificates.antt =====
-- The connection, the digests and the certificate chain of a slot.
use spdm_working.Common.{
  ℕ, u8, ◌+◌, ◌*◌, zero, suc, ◌%◌, ◌/◌, min, List, drop, length, ltb, if◌then◌else◌,
}
use spdm_working.Exceptions.{runtime_error}
use spdm_working.Exceptions.Action.{Action, return, throw, from_option, ◌>>=◌}
use spdm_working.Libspdm.{Libspdm, call, call_for}
use spdm_working.Integrity.{Component, State, require_context, ask}
use spdm_working.Integrity.Pem.{der_certs_to_pem}

abbrev pub digest_size : ℕ
digest_size = 48

abbrev pub max_slots : ℕ
max_slots = 8

-- `__builtin_popcount` of a byte.
unfoldable pub popcount : ℕ → ℕ → ℕ
popcount zero n = 0
popcount (suc bits) n = n % 2 + popcount bits (n / 2)

abbrev pub spdm_cert_chain_header_size : ℕ
spdm_cert_chain_header_size = 4

module _ {D : Type 0} (lib : Libspdm D) where
  unfoldable pub initialize_spdm_connection : Component → Action (State D) (Unit {0})
  initialize_spdm_connection component = do
    t ← require_context component.transport
    status ← ask (call (lib.init_connection t))
    if lib.is_error status
        then throw (runtime_error "SPDM connection initialization failed")
        else return tt

  unfoldable pub get_certificate_digests : Component → Action (State D) (ℕ × List ℕ × ℕ)
  unfolding popcount
  get_certificate_digests component = do
    t ← require_context component.transport
    (status, slot_mask, digests) ← ask (call_for (lib.get_digest t))
    if lib.is_error status
        then throw (runtime_error "Failed to get certificate digests")
        else return
            (slot_mask, digests, min (popcount 8 slot_mask * digest_size) (max_slots * digest_size))

  -- The chain behind its header and hash, as PEM.
  unfoldable pub converted : ℕ → List ℕ → Action (State D) (List ℕ × List ℕ × List ℕ)
  converted offset cert_chain = do
    (pem_chain, leaf_cert) ←
        from_option (der_certs_to_pem lib.get_cert_from_cert_chain (drop offset cert_chain))
    return (pem_chain, cert_chain, leaf_cert)

  -- What follows the library's answer.
  unfoldable pub split_chain : ℕ → List ℕ → Action (State D) (List ℕ × List ℕ × List ℕ)
  unfolding converted
  split_chain t cert_chain s =
      let offset =
        spdm_cert_chain_header_size + lib.get_hash_size (lib.base_hash_algo t s.world.device) in
      if ltb (length cert_chain) offset
      then throw (runtime_error "Certificate chain too small") s
      else converted offset cert_chain s

  unfoldable pub get_certificate : Component → ℕ → Action (State D) (List ℕ × List ℕ × List ℕ)
  get_certificate component slot_id = do
    t ← require_context component.transport
    (status, cert_chain) ← ask (call_for (lib.get_certificate t (u8 slot_id)))
    if lib.is_error status
        then throw (runtime_error "Failed to get certificate chain")
        else split_chain t cert_chain

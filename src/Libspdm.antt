-- ===== src/Libspdm.antt =====
-- What the program takes from libspdm, which is not part of the repository and so a parameter: the
-- return codes that it names, the macro `LIBSPDM_STATUS_IS_ERROR`, and the calls, as functions of
-- the state of the library and of the devices behind it. A call takes the number of the transport
-- whose context it is given. Beside it stand the members of `SpdmTransport`
-- (requester/libspdm_transport.hpp) that the callers read and write.
pub mod Demo
pub mod Kept
use spdm_working.Common.{ℕ, ◌≡◌, Bool, true, false, List, Option, ◌==◌, if◌then◌else◌}

-- `libspdm_return_t`: the `LIBSPDM_STATUS_…` codes by name, and any other code of the library.
pub data Status : Type 0 where
  success send_fail receive_fail buffer_too_small buffer_full : Status
  invalid_msg_field invalid_parameter invalid_state_local acquire_fail : Status
  other : ℕ → Status

-- The keys of `libspdm_set_data` that the program sets.
pub data DataType : Type 0 where
  spdm_version capability_flags dhe_name_group aead_cipher_suite req_base_asym_alg : DataType
  key_schedule other_params_support peer_public_root_cert capability_ct_exponent : DataType
  measurement_spec local_base_asym_algo local_base_hash_algo : DataType

-- What is set: an integer of a size in bytes, or a buffer.
pub data DataValue : Type 0 where
  number : ℕ → ℕ → DataValue
  buffer : List ℕ → DataValue

-- The macro, and the calls over the states `D`. A result lists the status, then the outputs.
pub record Libspdm (D : Type 0) : Type 0 where
  pub is_error : Status → Bool
  pub success_is_none : is_error success ≡ false
  pub invalid_parameter_is_one : is_error invalid_parameter ≡ true
  pub invalid_state_local_is_one : is_error invalid_state_local ≡ true
  pub init_connection : ℕ → D → Status × D
  -- The mask of slots and the digests.
  pub get_digest : ℕ → D → (Status × ℕ × List ℕ) × D
  pub get_certificate : ℕ → ℕ → D → (Status × List ℕ) × D
  -- The request's attribute, operation and slot; the number of blocks and the record.
  pub get_measurement : ℕ → ℕ → ℕ → ℕ → D → (Status × ℕ × List ℕ) × D
  -- `connection_info.algorithm` of the context, and the size of a hash of an algorithm.
  pub base_hash_algo : ℕ → D → ℕ
  pub base_asym_algo : ℕ → D → ℕ
  pub get_hash_size : ℕ → ℕ
  -- The certificate of a chain at an index.
  pub get_cert_from_cert_chain : List ℕ → ℕ → Option (List ℕ)
  -- Use of a pre-shared key, measurement hash, slot and policy; the identifier and the period.
  pub start_session : ℕ → Bool → ℕ → ℕ → ℕ → D → (Status × ℕ × ℕ) × D
  pub stop_session : ℕ → ℕ → ℕ → D → Status × D
  pub heartbeat : ℕ → ℕ → D → Status × D
  pub key_update : ℕ → ℕ → Bool → D → Status × D
  -- The request and the capacity for the response; the response.
  pub send_receive_data : ℕ → ℕ → List ℕ → ℕ → D → (Status × List ℕ) × D
  pub set_data : ℕ → DataType → DataValue → D → Status × D
  -- `LIBSPDM_DATA_BASE_ASYM_ALGO` of the connection.
  pub get_base_asym_algo : ℕ → D → (Status × ℕ) × D
  pub check_context : ℕ → D → Bool

-- The members of a transport that its users read and write.
pub record Transport : Type 0 where
  -- `spdmContext` is not null.
  pub spdm_context : Bool
  pub use_version : ℕ
  pub use_requester_capability_flags : ℕ

-- Every transport, by its number, and what is behind them.
pub record World (D : Type 0) : Type 0 where
  pub transports : ℕ → Transport
  pub device : D

module _ {D : Type 0} where
  abbrev pub context_of : ℕ → World D → Bool
  context_of t w = (w.transports t).spdm_context

  abbrev pub set_transport : ℕ → Transport → World D → World D
  set_transport t transport w = record w {
    transports = λ u. if u == t then transport else w.transports u;
  }

  -- A call that answers with a status alone.
  abbrev pub call : (D → Status × D) → World D → Status × World D
  call f w = let r = f w.device in (r.0, record w { device = r.1 })

  -- A call with outputs.
  abbrev pub call_for : {A : Type 0} → (D → A × D) → World D → A × World D
  call_for f w = let r = f w.device in (r.0, record w { device = r.1 })

-- A call, then the rest unless its status is an error.
abbrev pub unless_error :
    {S : Type 0} → (Status → Bool) → Status × S → (S → Status × S) → Status × S
unless_error is_error (st, s) rest = if is_error st then (st, s) else rest s

-- libspdm's constants `SPDM_ALGORITHMS_BASE_HASH_ALGO_…` and `SPDM_ALGORITHMS_BASE_ASYM_ALGO_…`.
pub record Algorithms : Type 0 where
  pub sha_256 : ℕ
  pub sha_384 : ℕ
  pub sha_512 : ℕ
  pub rsassa_2048 : ℕ
  pub rsapss_2048 : ℕ
  pub rsassa_3072 : ℕ
  pub rsapss_3072 : ℕ
  pub rsassa_4096 : ℕ
  pub rsapss_4096 : ℕ
  pub ecdsa_p256 : ℕ
  pub ecdsa_p384 : ℕ
  pub ecdsa_p521 : ℕ
  pub sm2_p256 : ℕ
  pub ed25519 : ℕ
  pub ed448 : ℕ
  -- `SPDM_CHALLENGE_REQUEST_NO_MEASUREMENT_SUMMARY_HASH`.
  pub no_measurement_summary_hash : ℕ

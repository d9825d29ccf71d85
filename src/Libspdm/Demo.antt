-- ===== src/Libspdm/Demo.antt =====
-- A library and its constants for tests: the state counts the calls, and each call succeeds.
use spdm_working.Common.{
  ℕ, zero, suc, ◌+◌, refl, List, [], ◌∷◌, Option, none, some, Bool, true, false,
}
use spdm_working.Libspdm.{Status, success, Libspdm, Algorithms, World}

abbrev pub failed : Status → Bool
failed success = false
failed _ = true

abbrev pub one_cert : List ℕ → ℕ → Option (List ℕ)
one_cert chain zero = some (65 ∷ 66 ∷ [])
one_cert chain (suc index) = none

abbrev pub demo : Libspdm ℕ
demo = record {
  is_error = failed;
  success_is_none = refl;
  invalid_parameter_is_one = refl;
  invalid_state_local_is_one = refl;
  init_connection = λ t d. (success, d + 1);
  get_digest = λ t d. ((success, 1, []), d + 1);
  get_certificate = λ t slot d. ((success, 0 ∷ 0 ∷ 0 ∷ 0 ∷ 9 ∷ 65 ∷ 66 ∷ []), d + 1);
  get_measurement = λ t attribute operation slot d. ((success, 1, 7 ∷ 8 ∷ []), d + 1);
  base_hash_algo = λ t d. 1;
  base_asym_algo = λ t d. 16;
  get_hash_size = λ algo. 1;
  get_cert_from_cert_chain = one_cert;
  start_session = λ t psk hash slot policy d. ((success, 5, 2), d + 1);
  stop_session = λ t id attrs d. (success, d + 1);
  heartbeat = λ t id d. (success, d + 1);
  key_update = λ t id single d. (success, d + 1);
  send_receive_data = λ t id req capacity d. ((success, req), d + 1);
  set_data = λ t key value d. (success, d + 1);
  get_base_asym_algo = λ t d. ((success, 16), d);
  check_context = λ t d. true;
}

abbrev pub demo_algorithms : Algorithms
demo_algorithms = record {
  sha_256 = 1;
  sha_384 = 2;
  sha_512 = 4;
  rsassa_2048 = 1;
  rsapss_2048 = 2;
  rsassa_3072 = 4;
  rsapss_3072 = 8;
  rsassa_4096 = 32;
  rsapss_4096 = 64;
  ecdsa_p256 = 16;
  ecdsa_p384 = 128;
  ecdsa_p521 = 256;
  sm2_p256 = 512;
  ed25519 = 1024;
  ed448 = 2048;
  no_measurement_summary_hash = 0;
}

abbrev pub demo_world : World ℕ
demo_world = record {
  transports =
      λ t. record { spdm_context = true; use_version = 0; use_requester_capability_flags = 0 };
  device = 0;
}

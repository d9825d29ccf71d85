-- ===== src/Config/Kept.antt =====
-- What the configuration keeps of the world.
use spdm_working.Common.{ℕ, List, Option, none, some, arith, u16, ◌<<◌}
use spdm_working.Libspdm.{
  Libspdm, DataType, World, Algorithms, spdm_version, number, buffer, dhe_name_group,
  aead_cipher_suite, req_base_asym_alg, key_schedule, other_params_support, capability_flags,
  peer_public_root_cert, set_transport, call,
}
use spdm_working.Libspdm.Kept.{Respects}
use spdm_working.Config.{
  SecureSessionConfig, Files, set_number, apply_version_config, check_configured, apply_algorithms,
  apply_secure_session_config, get_negotiated_asym_algo, load_peer_root_cert, install,
  install_peer_root_cert,
}

module _ {D : Type 0} (lib : Libspdm D) (P : World D → Type 0) (t : ℕ)
    (respects : Respects lib P t) where
  set_number-Kept :
      (key : DataType) (size value : ℕ) (w : World D)
      → P w
      → P (set_number lib t key size value w).1
  unfolding set_number
  set_number-Kept key size value w p = respects.set_data key _ w p

  apply_version_config-Kept :
      (shift version : ℕ) (w : World D) → P w → P (apply_version_config lib shift t version w).1
  unfolding apply_version_config
  apply_version_config-Kept shift version w p =
      let q = respects.set_data spdm_version (number 2 (u16 (version << shift))) w p in
      let w' = (call (lib.set_data t spdm_version (number 2 (u16 (version << shift)))) w).1 in
      let recorded = respects.use_version version w' q in ground arith

  check_configured-Kept : (w : World D) → P w → P (check_configured lib t w).1
  unfolding check_configured
  check_configured-Kept w p = ground arith

  apply_algorithms-Kept :
      (cfg : SecureSessionConfig) (w : World D) → P w → P (apply_algorithms lib t cfg w).1
  unfolding apply_algorithms
  apply_algorithms-Kept cfg w p =
      let w₁ = (set_number lib t dhe_name_group 2 cfg.dhe_group w).1 in
      let w₂ = (set_number lib t aead_cipher_suite 2 cfg.aead_cipher w₁).1 in
      let w₃ = (set_number lib t req_base_asym_alg 2 cfg.req_asym_alg w₂).1 in
      let w₄ = (set_number lib t key_schedule 2 cfg.key_schedule w₃).1 in
      let w₅ = (set_number lib t other_params_support 1 cfg.other_params_support w₄).1 in
      let p₁ = set_number-Kept dhe_name_group 2 cfg.dhe_group w p in
      let p₂ = set_number-Kept aead_cipher_suite 2 cfg.aead_cipher w₁ p₁ in
      let p₃ = set_number-Kept req_base_asym_alg 2 cfg.req_asym_alg w₂ p₂ in
      let p₄ = set_number-Kept key_schedule 2 cfg.key_schedule w₃ p₃ in
      let p₅ = set_number-Kept other_params_support 1 cfg.other_params_support w₄ p₄ in
      let p₆ = check_configured-Kept w₅ p₅ in ground arith

  pub apply_secure_session_config-Kept :
      (shift : ℕ) (cfg : SecureSessionConfig) (w : World D)
      → P w
      → P (apply_secure_session_config lib shift t cfg w).1
  unfolding apply_secure_session_config
  apply_secure_session_config-Kept shift cfg w p =
      let w₁ = (apply_version_config lib shift t cfg.version w).1 in
      let w₂ = (set_number lib t capability_flags 4 cfg.requester_cap_flags w₁).1 in
      let w₃ =
        set_transport t
          (record (w₂.transports t) { use_requester_capability_flags = cfg.requester_cap_flags })
          w₂ in
      let p₁ = apply_version_config-Kept shift cfg.version w p in
      let p₂ = set_number-Kept capability_flags 4 cfg.requester_cap_flags w₁ p₁ in
      let p₃ = apply_algorithms-Kept cfg w₃ (respects.use_flags cfg.requester_cap_flags w₂ p₂) in
      ground arith

  module _ (algorithms : Algorithms) (files : Files) (cfg : SecureSessionConfig) where
    load_peer_root_cert-Kept :
        (w : World D) → P w → P (load_peer_root_cert lib algorithms files t cfg w).1
    unfolding load_peer_root_cert get_negotiated_asym_algo
    load_peer_root_cert-Kept w p = let asked = respects.get_base_asym_algo w p in ground arith

    install-Kept :
        (cert : Option (List ℕ)) (w : World D)
        → P w
        → P (install lib algorithms files t cfg (cert, w)).1
    unfolding install
    install-Kept none w p = ground arith
    install-Kept (some cert) w p =
        let q = respects.set_data peer_public_root_cert (buffer cert) w p in ground arith

    pub install_peer_root_cert-Kept :
        (w : World D) → P w → P (install_peer_root_cert lib algorithms files t cfg w).1
    unfolding install_peer_root_cert
    install_peer_root_cert-Kept w p =
        let loaded = load_peer_root_cert lib algorithms files t cfg w in
        let q = install-Kept loaded.0 loaded.1 (load_peer_root_cert-Kept w p) in ground arith

-- ===== src/Config.antt =====
-- requester/spdm_session_config.cpp: the algorithms that are set in a transport's context, and the
-- root certificate of the peer.
pub mod Settings
pub mod Applied
pub mod CertFile
pub mod RootCert
pub mod Kept
mod Examples
use spdm_working.Common.{
  ℕ, ◌*◌, List, [], ◌∷◌, ◌++◌, ◌<<◌, Option, none, some, Bool, true, false, not, ◌||◌, ◌==◌, u16,
  if◌then◌else◌,
}
use spdm_working.Common.Text.{codes}
use spdm_working.Libspdm.{
  Libspdm, Status, success, invalid_parameter, invalid_state_local, World, context_of, call,
  call_for, unless_error, Algorithms, Transport, set_transport, DataType, DataValue, number, buffer,
  spdm_version, capability_flags, dhe_name_group, aead_cipher_suite, req_base_asym_alg,
  key_schedule, other_params_support, peer_public_root_cert,
}

pub record SecureSessionConfig : Type 0 where
  pub version : ℕ
  pub requester_cap_flags : ℕ
  pub dhe_group : ℕ
  pub aead_cipher : ℕ
  pub req_asym_alg : ℕ
  pub key_schedule : ℕ
  pub other_params_support : ℕ
  pub peer_root_cert_der : List ℕ
  pub peer_root_cert_der_path : List ℕ
  pub peer_root_cert_base_dir : List ℕ
  pub peer_root_cert_file_name : List ℕ

abbrev pub empty : {A : Type 0} → List A → Bool
empty [] = true
empty (x ∷ xs) = false

module _ {D : Type 0} (lib : Libspdm D) where
  unfoldable pub set_number : ℕ → DataType → ℕ → ℕ → World D → Status × World D
  set_number t key size value w = call (lib.set_data t key (number size value)) w

  unfoldable pub apply_version_config : ℕ → ℕ → ℕ → World D → Status × World D
  apply_version_config shift t version w =
      if version == 0
      then (success, w)
      else let r = call (lib.set_data t spdm_version (number 2 (u16 (version << shift)))) w in
        unless_error lib.is_error r
          (λ w. (success, set_transport t (record (w.transports t) { use_version = version }) w))

  unfoldable pub check_configured : ℕ → World D → Status × World D
  check_configured t w =
      if not (lib.check_context t w.device) then (invalid_state_local, w) else (success, w)

  -- The parameters behind the capability flags, each set unless an earlier one failed.
  unfoldable pub apply_algorithms : ℕ → SecureSessionConfig → World D → Status × World D
  unfolding set_number check_configured
  apply_algorithms t cfg w =
      unless_error lib.is_error (set_number t dhe_name_group 2 cfg.dhe_group w) (λ w.
        unless_error lib.is_error (set_number t aead_cipher_suite 2 cfg.aead_cipher w) (λ w.
          unless_error lib.is_error (set_number t req_base_asym_alg 2 cfg.req_asym_alg w) (λ w.
            unless_error lib.is_error (set_number t key_schedule 2 cfg.key_schedule w) (λ w.
              unless_error lib.is_error
                (set_number t other_params_support 1 cfg.other_params_support w)
                (check_configured t)))))

  -- `shift` is `SPDM_VERSION_NUMBER_SHIFT_BIT`.
  unfoldable pub apply_secure_session_config :
      ℕ → ℕ → SecureSessionConfig → World D → Status × World D
  unfolding apply_version_config set_number apply_algorithms
  apply_secure_session_config shift t cfg w =
      if not (context_of t w)
      then (invalid_parameter, w)
      else unless_error lib.is_error (apply_version_config shift t cfg.version w) (λ w.
        unless_error lib.is_error (set_number t capability_flags 4 cfg.requester_cap_flags w) (λ w.
          apply_algorithms t cfg (
            set_transport t
              (record (w.transports t) { use_requester_capability_flags = cfg.requester_cap_flags })
              w)))

-- The name of the folder of the sample keys for the negotiated algorithm.
unfoldable pub asym_algo_subdir : Algorithms → ℕ → Option (List ℕ)
asym_algo_subdir a algo =
    if (algo == a.rsassa_2048) || (algo == a.rsapss_2048)
    then some (codes "rsa2048")
    else if (algo == a.rsassa_3072) || (algo == a.rsapss_3072)
    then some (codes "rsa3072")
    else if (algo == a.rsassa_4096) || (algo == a.rsapss_4096)
    then some (codes "rsa4096")
    else if algo == a.ecdsa_p256
    then some (codes "ecp256")
    else if algo == a.ecdsa_p384
    then some (codes "ecp384")
    else if algo == a.ecdsa_p521
    then some (codes "ecp521")
    else if algo == a.sm2_p256
    then some (codes "sm2")
    else if algo == a.ed25519
    then some (codes "ed25519")
    else if algo == a.ed448
    then some (codes "ed448")
    else none

-- The files that can be opened, and the `/` of `std::filesystem::path`.
pub record Files : Type 0 where
  pub contents : List ℕ → Option (List ℕ)
  pub join : List ℕ → List ℕ → List ℕ

unfoldable pub read_file : Files → List ℕ → List ℕ
read_file files path = elim (files.contents path) [ none ↦ [] | some bytes ↦ bytes ]

-- The bytes; an empty file counts as one that cannot be loaded.
unfoldable pub load_cert_from_file : Files → List ℕ → Option (List ℕ)
unfolding read_file
load_cert_from_file files path =
    if empty (read_file files path) then none else some (read_file files path)

unfoldable pub config_attempted : SecureSessionConfig → Bool
config_attempted cfg =
    not (empty cfg.peer_root_cert_der)
    || not (empty cfg.peer_root_cert_der_path)
    || not (empty cfg.peer_root_cert_base_dir)

module _ {D : Type 0} (lib : Libspdm D) (algorithms : Algorithms) (files : Files) where
  -- 0 where the library answers with an error.
  unfoldable pub get_negotiated_asym_algo : ℕ → World D → ℕ × World D
  get_negotiated_asym_algo t w =
      let r = call_for (lib.get_base_asym_algo t) w in
      (if lib.is_error r.0.0 then 0 else r.0.1, r.1)

  abbrev pub load_from : SecureSessionConfig → Option (List ℕ) → Option (List ℕ)
  load_from cfg none = none
  load_from cfg (some subdir) =
      load_cert_from_file files
        (files.join (files.join cfg.peer_root_cert_base_dir subdir) cfg.peer_root_cert_file_name)

  unfoldable pub load_peer_root_cert : ℕ → SecureSessionConfig → World D → Option (List ℕ) × World D
  load_peer_root_cert t cfg w =
      if not (empty cfg.peer_root_cert_der)
      then (some cfg.peer_root_cert_der, w)
      else if not (empty cfg.peer_root_cert_der_path)
      then (load_cert_from_file files cfg.peer_root_cert_der_path, w)
      else if not (empty cfg.peer_root_cert_base_dir)
      then (let r = get_negotiated_asym_algo t w in
          (load_from cfg (asym_algo_subdir algorithms r.0), r.1))
      else (none, w)

  -- What is done with the certificate that was loaded, if one was.
  unfoldable pub install : ℕ → SecureSessionConfig → Option (List ℕ) × World D → Status × World D
  unfolding config_attempted
  install t cfg (none, w) = if config_attempted cfg then (invalid_parameter, w) else (success, w)
  install t cfg (some cert, w) =
      unless_error lib.is_error (call (lib.set_data t peer_public_root_cert (buffer cert)) w)
        (λ w. (success, w))

  unfoldable pub install_peer_root_cert : ℕ → SecureSessionConfig → World D → Status × World D
  install_peer_root_cert t cfg w =
      if not (context_of t w)
      then (invalid_parameter, w)
      else install t cfg (load_peer_root_cert t cfg w)

-- ===== src/Config/Examples.antt =====
-- Runs of the configuration, and the theorems at concrete inputs.
use spdm_working.Common.{none, ◌≡◌, refl, [], some}
use spdm_working.Common.Text.{codes}
use spdm_working.Libspdm.Demo.{demo, demo_algorithms, demo_world}
use spdm_working.Config.{
  SecureSessionConfig, apply_secure_session_config, install_peer_root_cert, Files, asym_algo_subdir,
}
use spdm_working.Config.RootCert.{Anchored, install_peer_root_cert-Anchored}
use spdm_working.Config.Applied.{Applied, apply_secure_session_config-Applied}

abbrev config : SecureSessionConfig
config = record {
  version = 18;
  requester_cap_flags = 6;
  dhe_group = 16;
  aead_cipher = 2;
  req_asym_alg = 1;
  key_schedule = 1;
  other_params_support = 0;
  peer_root_cert_der = [];
  peer_root_cert_der_path = [];
  peer_root_cert_base_dir = codes "/usr/share/spdm-emu";
  peer_root_cert_file_name = codes "ca.cert.der";
}

names_p256 : asym_algo_subdir demo_algorithms 16 ≡ some (codes "ecp256")
unfolding asym_algo_subdir
names_p256 = refl

apply_secure_session_config-Applied_example :
    Applied demo 0 8 config demo_world (apply_secure_session_config demo 8 0 config demo_world)
apply_secure_session_config-Applied_example =
    apply_secure_session_config-Applied demo 0 8 config demo_world refl

abbrev no_files : Files
no_files = record { contents = λ path. none; join = λ dir name. name }

install_peer_root_cert-Anchored_example :
    Anchored demo demo_algorithms no_files 0 config demo_world
      (install_peer_root_cert demo demo_algorithms no_files 0 config demo_world)
install_peer_root_cert-Anchored_example =
    install_peer_root_cert-Anchored demo demo_algorithms no_files 0 config demo_world refl

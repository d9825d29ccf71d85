-- ===== src/Daemon/Demo.antt =====
-- The daemon's platform and configuration for tests.
use spdm_working.Common.{ℕ, [], ◌∷◌, none, true}
use spdm_working.Libspdm.Demo.{demo, demo_algorithms}
use spdm_working.Config.{SecureSessionConfig}
use spdm_working.Daemon.{Platform}

abbrev pub platform : Platform ℕ
platform = record {
  lib = demo;
  algorithms = demo_algorithms;
  version_shift = 8;
  files = record { contents = λ path. none; join = λ dir name. name };
  filename = λ path. path;
  clock = λ d. d;
  initialize = λ t w. (true, w);
}

abbrev pub config : SecureSessionConfig
config = record {
  version = 0;
  requester_cap_flags = 6;
  dhe_group = 16;
  aead_cipher = 2;
  req_asym_alg = 1;
  key_schedule = 1;
  other_params_support = 0;
  peer_root_cert_der = 1 ∷ [];
  peer_root_cert_der_path = [];
  peer_root_cert_base_dir = [];
  peer_root_cert_file_name = [];
}

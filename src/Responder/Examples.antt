-- ===== src/Responder/Examples.antt =====
-- The theorems on a responder at concrete inputs.
use spdm_working.Common.{refl, [], ◌∷◌, none, some}
use spdm_working.Libspdm.Demo.{demo, demo_algorithms, demo_world}
use spdm_working.Config.{SecureSessionConfig, Files}
use spdm_working.Integrity.{new_component, with_transport}
use spdm_working.Responder.{Responder, open_secure_session}
use spdm_working.Responder.Opening.{Opened, open_secure_session-Opened}

abbrev config : SecureSessionConfig
config = record {
  version = 0;
  requester_cap_flags = 6;
  dhe_group = 16;
  aead_cipher = 2;
  req_asym_alg = 1;
  key_schedule = 1;
  other_params_support = 0;
  peer_root_cert_der = 48 ∷ [];
  peer_root_cert_der_path = [];
  peer_root_cert_base_dir = [];
  peer_root_cert_file_name = [];
}

abbrev no_files : Files
no_files = record { contents = λ path. none; join = λ dir name. name }

abbrev responder : Responder
responder = record {
  device_name = 67 ∷ [];
  inventory_path = 47 ∷ [];
  transport = some 0;
  component_integrity = with_transport (some 0) (new_component (47 ∷ 67 ∷ []) 0);
  trusted_component_path = 47 ∷ 84 ∷ [];
  session = none;
}

open_secure_session-Opened_example :
    Opened demo demo_algorithms no_files config 0 0 responder demo_world
      (open_secure_session demo demo_algorithms no_files config 0 responder demo_world)
open_secure_session-Opened_example =
    open_secure_session-Opened demo demo_algorithms no_files config 0 0 responder demo_world refl
      refl

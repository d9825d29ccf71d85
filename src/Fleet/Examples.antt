-- ===== src/Fleet/Examples.antt =====
-- A daemon with TCP transports, and the theorems at it.
use spdm_working.Common.{
  ℕ, suc, subst, ◌≡◌, refl, List, [], ◌∷◌, none, some, Bool, true, false, ◌&&◌,
}
use spdm_working.Exceptions.{Exception}
use spdm_working.Discovery.{find}
use spdm_working.Discovery.Demo.{objects, em_objects}
use spdm_working.Discovery.Flow.{mctp_protocol}
use spdm_working.Daemon.PolicyFile.{Cache, items, boolean}
use spdm_working.Daemon.PolicyFile.Boot.{IsObject}
use spdm_working.Daemon.Startup as Startup
use spdm_working.Daemon.Startup.{Step, answer}
use spdm_working.Daemon.Startup.Discovers.{answers, one_failed}
use spdm_working.Daemon.Main.{main}
use spdm_working.Daemon.Main.Ends.{EndsFor}
use spdm_working.Common.Text.{codes}
use mathlib.Core.Option.{some-injective}
use spdm_working.Libspdm.{Libspdm, World, success}
use spdm_working.Libspdm.Demo.{failed, demo_algorithms}
use spdm_working.Responder.{ResponderInfo, new_responder, open_secure_session, send_heartbeat}
use spdm_working.Config.{
  apply_secure_session_config, install_peer_root_cert, install, load_peer_root_cert,
}
use spdm_working.Integrity.{require_context}
use spdm_working.Integrity.Certificates.{initialize_spdm_connection}
use spdm_working.Session.{
  new_session, start, peer_cert_for, slot_is_empty, start_exchange, heartbeat,
}
use spdm_working.Machine.{malloc, socket, on_device}
use spdm_working.Machine.Demo.{host}
use spdm_working.Setup.{SpdmTransport, register_functions, setup_scratch_buffer, configure_context}
use spdm_working.Tcp.Connect.{create_socket}
use spdm_working.Tcp.Setup as Tcp
use spdm_working.Daemon.{Platform, Daemon, Event, discovered, enabled_set, run, process_device}
use spdm_working.Daemon.Demo.{platform, config}
use spdm_working.Fleet.{Class, Devices, updated, initialize, platform_of}
use spdm_working.Fleet.Classes.{tcp_class}
use spdm_working.Fleet.Sound.{AllSound}
use spdm_working.Fleet.Apart.{Untouched, Unseen, process_device-Untouched}
use spdm_working.Fleet.Run.{run-AllSound, main-EndsSound}

abbrev no_members : SpdmTransport
no_members = record {
  socket_fd = none;
  spdm_context = none;
  scratch_buffer = none;
  use_version = 0;
  support_measurement_spec = 1;
  support_asym_algo = 0x190;
  support_hash_algo = 7;
}

abbrev class : Class ℕ
class = tcp_class (host 0) 8 (λ t. record { ip_addr = codes "10.0.0.1"; port = 4194 })

abbrev world : World (Devices ℕ)
world = record {
  transports =
      λ t. record { spdm_context = false; use_version = 0; use_requester_capability_flags = 0 };
  device = record {
    device = 100;
    members = λ t. no_members;
    accounts = λ t. record { blocks = []; descriptors = [] };
  };
}

-- The second transport is set up: its blocks and its socket are its own.
sets_up :
    (initialize class 1 world).1.device.accounts 1
    ≡ record { blocks = 101 ∷ 100 ∷ []; descriptors = 3 ∷ [] }
unfolding initialize tcp_class Tcp.initialize Tcp.allocate_context create_socket socket malloc
    register_functions setup_scratch_buffer configure_context
sets_up = refl

abbrev fresh : Daemon (Devices ℕ)
fresh = record {
  enabled = true;
  secure_session_enabled = true;
  discovered_devices = [];
  responders = [];
  world = world;
}

abbrev toggles : List (Event (platform_of class platform))
toggles =
    discovered (
      record { object_path = codes "/a"; device_object_path = codes "/d"; transport = some 0 }
      ∷ record { object_path = codes "/b"; device_object_path = codes "/e"; transport = some 1 }
      ∷ [])
    ∷ enabled_set false
    ∷ enabled_set true
    ∷ []

run-AllSound_example : AllSound (run (platform_of class platform) config toggles fresh).world
run-AllSound_example = run-AllSound class platform config toggles fresh (λ u. ((refl, tt), refl))

-- Devices that count the calls with each context, and a set-up that succeeds.
abbrev counted : ℕ → (ℕ → ℕ) → ℕ → ℕ
counted t d = updated t (suc (d t)) d

abbrev counting : Libspdm (ℕ → ℕ)
counting = record {
  is_error = failed;
  success_is_none = refl;
  invalid_parameter_is_one = refl;
  invalid_state_local_is_one = refl;
  init_connection = λ t d. (success, counted t d);
  get_digest = λ t d. ((success, 1, []), counted t d);
  get_certificate = λ t slot d. ((success, 65 ∷ []), counted t d);
  get_measurement = λ t attribute operation slot d. ((success, 1, 7 ∷ []), counted t d);
  base_hash_algo = λ t d. 1;
  base_asym_algo = λ t d. 16;
  get_hash_size = λ algo. 1;
  get_cert_from_cert_chain = λ chain index. none;
  start_session = λ t psk hash slot policy d. ((success, 5, 2), counted t d);
  stop_session = λ t id attrs d. (success, counted t d);
  heartbeat = λ t id d. (success, counted t d);
  key_update = λ t id single d. (success, counted t d);
  send_receive_data = λ t id req capacity d. ((success, req), counted t d);
  set_data = λ t key value d. (success, counted t d);
  get_base_asym_algo = λ t d. ((success, 16), counted t d);
  check_context = λ t d. true;
}

abbrev counting_platform : Platform (ℕ → ℕ)
counting_platform = record {
  lib = counting;
  algorithms = demo_algorithms;
  version_shift = 8;
  files = record { contents = λ path. none; join = λ dir name. name };
  filename = λ path. path;
  clock = λ d. 0;
  initialize = λ t w. (true, w);
}

abbrev counting_class : Class (ℕ → ℕ)
counting_class = record {
  initialize = λ t members m. (true, members, on_device (counted t) m);
  initialize-Sound = λ t members m sound. sound;
}

abbrev counting_world : World (Devices (ℕ → ℕ))
counting_world = record {
  transports =
      λ t. record { spdm_context = true; use_version = 0; use_requester_capability_flags = 0 };
  device = record {
    device = λ t. 0;
    members = λ t. record no_members { spdm_context = some 5 };
    accounts = λ t. record { blocks = 5 ∷ []; descriptors = [] };
  };
}

abbrev first_device : ResponderInfo
first_device = record { object_path = []; device_object_path = []; transport = some 0 }

-- The set-up, six settings, the connection, the anchor, the digests, the certificate, the exchange of
-- keys and the heartbeat.
calls_counted :
    (process_device
        (platform_of counting_class counting_platform)
        config
        true
        first_device
        counting_world).1.device.device
      0
    ≡ 13
unfolding process_device initialize apply_secure_session_config new_responder
    initialize_spdm_connection require_context open_secure_session install_peer_root_cert install
    load_peer_root_cert new_session start peer_cert_for slot_is_empty start_exchange send_heartbeat
    heartbeat
calls_counted = refl

Unseen-other :
    (t : ℕ) → first_device.transport ≡ some t → Unseen counting_class counting (λ d. d 1) t
Unseen-other t e = subst (Unseen counting_class counting (λ d. d 1)) (some-injective _ _ e) (
  (λ d. refl),
  (λ d. refl),
  (λ slot d. refl),
  (λ psk hash slot policy d. refl),
  (λ id attrs d. refl),
  (λ id d. refl),
  (λ key value d. refl),
  (λ d. refl),
  λ members m. refl,
)

process_device-Untouched_example :
    Untouched 1
      (λ d. d 1)
      counting_world
      (process_device
        (platform_of counting_class counting_platform)
        config
        true
        first_device
        counting_world).1
process_device-Untouched_example =
    process_device-Untouched counting_class counting_platform config true first_device 1 (λ d. d 1)
      counting_world (λ e. absurd (cc e)) Unseen-other

-- The context's `run` returns where no exception is left.
abbrev returns : List Exception → Bool
returns [] = true
returns (e ∷ es) = false

abbrev cache : Cache
cache = items ((codes "enabled", boolean true) ∷ [])

cache-IsObject : IsObject cache
unfolding find
cache-IsObject = (refl, tt)

-- The devices are found, and the policy changes before the daemon is stopped.
abbrev found : List Step
found =
    answer (some objects)
    ∷ answer (some em_objects)
    ∷ Startup.enabled_set false
    ∷ Startup.enabled_set true
    ∷ []

main-EndsSound_example :
    EndsFor AllSound cache false world (true && one_failed mctp_protocol (answers found)) (
      main
        (platform_of class platform)
        config
        (λ f. none)
        true
        returns
        cache
        false
        true
        mctp_protocol
        found
        world)
main-EndsSound_example =
    main-EndsSound class platform config (λ f. none) true returns cache false true mctp_protocol
      found world (λ f. refl) refl cache-IsObject (λ u. ((refl, tt), refl))

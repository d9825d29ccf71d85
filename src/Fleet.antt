-- ===== src/Fleet.antt =====
-- The daemon's transports, each set up by its own class: what stands behind the virtual
-- `SpdmTransport::initialize` (requester/libspdm_transport.hpp) that requester/spdmd.cpp calls. The
-- blocks and descriptors of each transport are accounted for apart.
pub mod Sound
pub mod Classes
pub mod Run
pub mod Apart
mod Examples
use mathlib.Core.List.{Memᴰ}
use spdm_working.Common.{ℕ, ◌≡◌, ◌==◌, List, [], Option, none, some, Bool, if◌then◌else◌}
use spdm_working.Libspdm.{Libspdm, World, Transport, Algorithms}
use spdm_working.Machine.{Machine, gained}
use spdm_working.Setup.{SpdmTransport, is_set}
use spdm_working.Config.{Files}
use spdm_working.Daemon.{Platform}

pub record Account : Type 0 where
  pub blocks : List ℕ
  pub descriptors : List ℕ

-- What libspdm and the devices are, and the members and the account of every transport.
pub record Devices (E : Type 0) : Type 0 where
  pub device : E
  pub members : ℕ → SpdmTransport
  pub accounts : ℕ → Account

-- The context, where the transport has one, is a block that is allocated.
abbrev pub Live : Option ℕ → List ℕ → Type 0
Live none blocks = Unit
Live (some c) blocks = Memᴰ c blocks

-- And the only descriptor that is open is that of the transport's socket.
abbrev pub Sound : SpdmTransport → List ℕ → List ℕ → Type 0
Sound members blocks descriptors =
    (descriptors ≡ gained members.socket_fd []) × Live members.spdm_context blocks

-- A class of transports: its `initialize`, for the transport of a number, and what that keeps.
pub record Class (E : Type 0) : Type 0 where
  pub initialize : ℕ → SpdmTransport → Machine E → Bool × SpdmTransport × Machine E
  pub initialize-Sound :
      (t : ℕ) (members : SpdmTransport) (m : Machine E)
      → Sound members m.blocks m.descriptors
      → let r = initialize t members m in Sound r.1 r.2.blocks r.2.descriptors

-- At one number.
abbrev pub updated : {A : Type 0} → ℕ → A → (ℕ → A) → ℕ → A
updated t a f u = if u == t then a else f u

module _ {E : Type 0} where
  abbrev pub machine_of : ℕ → Devices E → Machine E
  machine_of t d = record {
    device = d.device;
    blocks = (d.accounts t).blocks;
    descriptors = (d.accounts t).descriptors;
  }

  abbrev pub put : ℕ → SpdmTransport → Machine E → Devices E → Devices E
  put t members m d = record {
    device = m.device;
    members = updated t members d.members;
    accounts = updated t (record { blocks = m.blocks; descriptors = m.descriptors }) d.accounts;
  }

  -- The members that the callers of a transport read and write are among its members.
  abbrev pub members_of : ℕ → World (Devices E) → SpdmTransport
  members_of t w = record (w.device.members t) { use_version = (w.transports t).use_version }

  -- `initialize` of the transport of a number.
  unfoldable pub initialize : Class E → ℕ → World (Devices E) → Bool × World (Devices E)
  initialize class t w =
      let (ok, members, m) = class.initialize t (members_of t w) (machine_of t w.device) in
      (
        ok,
        record {
          transports =
              updated t (record (w.transports t) { spdm_context = is_set members.spdm_context })
                w.transports;
          device = put t members m w.device;
        },
      )

  -- A call of libspdm is on the devices alone.
  abbrev pub on_device : {A : Type 0} → (E → A × E) → Devices E → A × Devices E
  on_device f d = let r = f d.device in (r.0, record d { device = r.1 })

  abbrev pub behind : Libspdm E → Libspdm (Devices E)
  behind lib = record {
    is_error = lib.is_error;
    success_is_none = lib.success_is_none;
    invalid_parameter_is_one = lib.invalid_parameter_is_one;
    invalid_state_local_is_one = lib.invalid_state_local_is_one;
    init_connection = λ t. on_device (lib.init_connection t);
    get_digest = λ t. on_device (lib.get_digest t);
    get_certificate = λ t slot. on_device (lib.get_certificate t slot);
    get_measurement =
        λ t attribute operation slot. on_device (lib.get_measurement t attribute operation slot);
    base_hash_algo = λ t d. lib.base_hash_algo t d.device;
    base_asym_algo = λ t d. lib.base_asym_algo t d.device;
    get_hash_size = lib.get_hash_size;
    get_cert_from_cert_chain = lib.get_cert_from_cert_chain;
    start_session = λ t psk hash slot policy. on_device (lib.start_session t psk hash slot policy);
    stop_session = λ t id attrs. on_device (lib.stop_session t id attrs);
    heartbeat = λ t id. on_device (lib.heartbeat t id);
    key_update = λ t id single. on_device (lib.key_update t id single);
    send_receive_data = λ t id req capacity. on_device (lib.send_receive_data t id req capacity);
    set_data = λ t key value. on_device (lib.set_data t key value);
    get_base_asym_algo = λ t. on_device (lib.get_base_asym_algo t);
    check_context = λ t d. lib.check_context t d.device;
  }

  -- The daemon's platform with these transports.
  abbrev pub platform_of : Class E → Platform E → Platform (Devices E)
  platform_of class base = record {
    lib = behind base.lib;
    algorithms = base.algorithms;
    version_shift = base.version_shift;
    files = base.files;
    filename = base.filename;
    clock = λ d. base.clock d.device;
    initialize = initialize class;
  }

-- ===== src/Client/Examples.antt =====
-- Runs of the client, and the theorems at concrete inputs.
use mathlib.Core.List.{Memᴰ}
use spdm_working.Common.{
  ℕ, suc, ◌+◌, ◌≡◌, ◌↔◌, refl, List, [], ◌∷◌, ◌++◌, Option, none, some, Bool, true, false, arith,
}
use spdm_working.Common.Text.{codes}
use spdm_working.Common.Returns.{Returns}
use spdm_working.Libspdm.{Libspdm, success, receive_fail, invalid_msg_field}
use spdm_working.Libspdm.Demo.{demo, failed}
use spdm_working.Machine.{Machine, malloc, socket, free, close, erase, Host, connected}
use spdm_working.Tcp.Frame.{decode, refused, delivered}
use spdm_working.Tcp.Pipe.{pipe, holding}
use spdm_working.Tcp.Connect.{Address}
use spdm_working.Client.Io.{tcp_msg, store_le32, load_le32, recv_loop, spdm_device_receive_message}
use spdm_working.Client.Io.Bounds.{Delivers, spdm_device_receive_message-Delivers}
use spdm_working.Client.Io.Frame.{decode-tcp_msg}
use spdm_working.Client.Context.{
  Settings, tcp_connect, tcp_disconnect, create_spdm_context, destroy_spdm_context,
}
use spdm_working.Client.Protocol.{
  has_slot, find_slot, find_slot_from, Operations, run_spdm_protocol,
}
use spdm_working.Client.Protocol.Ran.{IsFirstSlot, run_spdm_protocol-succeeds_iff}
use spdm_working.Client.Program.{main}

abbrev request : List ℕ
request = 0x10 ∷ 0x84 ∷ []

abbrev frame : List ℕ
frame = 1 ∷ 0 ∷ 0 ∷ 0 ∷ 3 ∷ 0 ∷ 0 ∷ 0 ∷ 2 ∷ 0 ∷ 0 ∷ 0 ∷ 0x10 ∷ 0x84 ∷ []

frames : tcp_msg request ≡ frame
unfolding tcp_msg store_le32
frames = refl

receives :
    spdm_device_receive_message pipe 20 (λ n. true) true (holding (frame ++ 9 ∷ []))
    ≡ some (delivered request 2, holding (9 ∷ []))
unfolding spdm_device_receive_message recv_loop load_le32
receives = refl

-- A message of no bytes is refused.
receives_not :
    spdm_device_receive_message pipe 20
      (λ n. true)
      true
      (holding (1 ∷ 0 ∷ 0 ∷ 0 ∷ 3 ∷ 0 ∷ 0 ∷ 0 ∷ 0 ∷ 0 ∷ 0 ∷ 0 ∷ []))
    ≡ some (refused receive_fail, holding [])
unfolding spdm_device_receive_message recv_loop load_le32
receives_not = refl

decode-tcp_msg_example :
    decode (λ n. true) (tcp_msg request ++ []) ≡ some (refused invalid_msg_field)
decode-tcp_msg_example = decode-tcp_msg (λ n. true) request []

abbrev settings : Settings
settings = record { dmtf = 1; ecdsa_p256 = 0x10; ecdsa_p384 = 0x80; sha_256 = 1; sha_384 = 2 }

abbrev operations : Operations
operations = record { total_number_of_measurements = 0; all_measurements = 255 }

-- The number of the next block, and the scratch buffer that the context has.
record Given : Type 0 where
  next : ℕ
  scratch : Option ℕ

abbrev scratch_of : Option ℕ → Given → Option ℕ
scratch_of c d = d.scratch

abbrev remembering : Host Given
remembering = record {
  malloc = λ size d. (some d.next, record d { next = d.next + 1 });
  socket = λ family d. (some 3, d);
  set_no_delay = λ fd d. d;
  set_timeouts = λ fd seconds d. d;
  get_flags = λ fd d. (some 2, d);
  set_flags = λ fd flags d. d;
  o_nonblock = 2048;
  inet_pton = λ s. some 1;
  connect = λ fd addr port d. (connected, d);
  poll = λ fd ms d. (true, d);
  socket_error = λ fd d. (some 0, d);
  bind = λ fd d. (true, d);
  context_size = 64;
  init_context = λ c d. (success, d);
  deinit_context = λ c d. d;
  set_app_context_data = λ c d. d;
  register_device_io_func = λ layer c d. d;
  register_transport_layer_func = λ layer c d. d;
  register_device_buffer_func = λ layer c d. d;
  required_scratch_buffer = λ c d. 32;
  set_scratch_buffer = λ c p size d. record d { scratch = p };
  set_data = λ c key value d. d;
  check_context = λ c d. true;
}

-- A block that is not held.
abbrev total : List ℕ → ℕ
total [] = 0
total (x ∷ xs) = x + total xs

abbrev with_message : Machine Given → Machine Given
with_message m = record m { blocks = suc (total m.blocks) ∷ m.blocks }

-- A library whose calls succeed; a message is received for the digests.
abbrev quiet : Libspdm (Machine Given)
quiet = record {
  is_error = failed;
  success_is_none = refl;
  invalid_parameter_is_one = refl;
  invalid_state_local_is_one = refl;
  init_connection = λ t d. (success, d);
  get_digest = λ t d. ((success, 1, []), with_message d);
  get_certificate = λ t slot d. ((success, 65 ∷ []), d);
  get_measurement = λ t attribute operation slot d. ((success, 1, 7 ∷ []), d);
  base_hash_algo = λ t d. 1;
  base_asym_algo = λ t d. 16;
  get_hash_size = λ algo. 1;
  get_cert_from_cert_chain = λ chain index. none;
  start_session = λ t psk hash slot policy d. ((success, 5, 2), d);
  stop_session = λ t id attrs d. (success, d);
  heartbeat = λ t id d. (success, d);
  key_update = λ t id single d. (success, d);
  send_receive_data = λ t id req capacity d. ((success, req), d);
  set_data = λ t key value d. (success, d);
  get_base_asym_algo = λ t d. ((success, 16), d);
  check_context = λ t d. true;
}

abbrev start : Machine Given
start = record {
  device = record { next = 100; scratch = none };
  blocks = 7 ∷ [];
  descriptors = 1 ∷ [];
}

abbrev address : Address
address = record { ip_addr = codes "127.0.0.1"; port = 2323 }

slots : (find_slot 20 ≡ 2) × (find_slot 0 ≡ 0)
unfolding find_slot find_slot_from has_slot
slots = (refl, refl)

run_spdm_protocol-succeeds_iff_example :
    (((run_spdm_protocol demo operations 1 5).0 ≡ true) ↔ (
      (◌≡◌ {A = Bool} false false) × (◌≡◌ {A = Bool} false false) × (◌≡◌ {A = Bool} false false)))
    × IsFirstSlot 1 0 8 (find_slot 1)
run_spdm_protocol-succeeds_iff_example = run_spdm_protocol-succeeds_iff demo operations 1 5

runs : main remembering quiet operations settings scratch_of address start ≡ (
  true,
  record start { device = record { next = 102; scratch = some 101 }; blocks = 209 ∷ 7 ∷ [] },
)
unfolding main tcp_connect tcp_disconnect create_spdm_context destroy_spdm_context run_spdm_protocol
    socket malloc free close erase
runs = refl

spdm_device_receive_message-Delivers_example :
    Returns
      (Delivers pipe (holding (frame ++ 9 ∷ [])))
      (spdm_device_receive_message pipe 70000 (λ n. true) true (holding (frame ++ 9 ∷ [])))
spdm_device_receive_message-Delivers_example =
    spdm_device_receive_message-Delivers pipe 70000 (λ n. true) (holding (frame ++ 9 ∷ []))
      (omega arith)

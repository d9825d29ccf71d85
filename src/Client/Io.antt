-- ===== src/Client/Io.antt =====
-- The callbacks of requester/spdm_simple_client.cpp that libspdm sends and receives by. The header
-- is in the host's byte order, of which the source says that it is little-endian. Each loop has
-- fuel; `none` means that it ran out, or a read out of range.
pub mod Frame
pub mod Loops
pub mod RoundTrip
pub mod Bounds
use spdm_working.Common.{
  ℕ, zero, suc, ◌+◌, ◌-◌, ◌*◌, ◌/◌, ◌%◌, ◌^◌, u32, List, [], ◌∷◌, ◌++◌, Bool, true, false, Option,
  none, some, ltb, ◌==◌, not, ◌||◌, if◌then◌else◌, length, drop, get_elem?,
}
use spdm_working.Common.Partial.{◌>>=◌}
use spdm_working.Libspdm.{Status, success, send_fail, receive_fail, buffer_full}
use spdm_working.Tcp.Frame.{Decoded, refused, delivered}
use spdm_working.Tcp.Socket.{Received, received, recv_failed, Sent, sent, send_failed, Socket}
use spdm_working.Tcp.Io.{Filled, full, stopped}

abbrev pub platform_cmd_normal : ℕ
platform_cmd_normal = 0x00000001

abbrev pub platform_transport_tcp : ℕ
platform_transport_tcp = 0x00000003

abbrev pub platform_header_size : ℕ
platform_header_size = 12

-- A `uint32_t` member of `PlatformHeader` in memory, the low byte first.
unfoldable pub store_le32 : ℕ → List ℕ
store_le32 v = v % 256 ∷ v / 2 ^ 8 % 256 ∷ v / 2 ^ 16 % 256 ∷ v / 2 ^ 24 % 256 ∷ []

unfoldable pub load_le32 : List ℕ → ℕ → Option ℕ
load_le32 buf k = do
  a ← get_elem? buf k
  b ← get_elem? buf (k + 1)
  c ← get_elem? buf (k + 2)
  d ← get_elem? buf (k + 3)
  some (a + b * 2 ^ 8 + c * 2 ^ 16 + d * 2 ^ 24)

-- `tcpMsg` of `spdmDeviceSendMessage`.
unfoldable pub tcp_msg : List ℕ → List ℕ
tcp_msg msg =
    store_le32 platform_cmd_normal
    ++ (store_le32 platform_transport_tcp ++ (store_le32 (u32 (length msg)) ++ msg))

module _ (socket : Socket) where
  open socket use {State, recv, send}

  -- What the body of the send loop does with the result of `send`.
  abbrev pub after_send : (ℕ → Option (Status × State)) → ℕ → State → Sent → Option (Status × State)
  after_send again total_sent s (sent zero) = some (send_fail, s)
  after_send again total_sent s (sent (suc n)) = again (total_sent + suc n)
  after_send again total_sent s (send_failed e) = some (send_fail, s)

  unfoldable pub send_loop : ℕ → List ℕ → ℕ → State → Option (Status × State)
  send_loop zero buf total_sent s = none
  send_loop (suc fuel) buf total_sent s = elim (ltb total_sent (length buf)) [
    | false ↦ some (success, s)
    | true ↦
        let (r, t) = send (drop total_sent buf) s in
        after_send (λ total'. send_loop fuel buf total' t) total_sent t r
  ]

  -- `socketFd >= 0` is `is_open`.
  unfoldable pub spdm_device_send_message : ℕ → Bool → List ℕ → State → Option (Status × State)
  spdm_device_send_message fuel false msg s = some (send_fail, s)
  spdm_device_send_message fuel true msg s = send_loop fuel (tcp_msg msg) 0 s

  abbrev pub after_recv :
      (List ℕ → Option (Filled × State)) → List ℕ → State → Received → Option (Filled × State)
  after_recv again buf s (received []) = some (stopped buf, s)
  after_recv again buf s (received (b ∷ bytes)) = again (buf ++ b ∷ bytes)
  after_recv again buf s (recv_failed e) = some (stopped buf, s)

  -- Both receive loops: `buf` holds what was received so far.
  unfoldable pub recv_loop : ℕ → ℕ → List ℕ → State → Option (Filled × State)
  recv_loop zero want buf s = none
  recv_loop (suc fuel) want buf s = elim (ltb (length buf) want) [
    | false ↦ some (full buf, s)
    | true ↦
        let (r, t) = recv (want - length buf) s in
        after_recv (λ buf'. recv_loop fuel want buf' t) buf t r
  ]

  -- Where the payload does not arrive, the message is freed, and its size stays written.
  abbrev pub after_payload : ℕ → Filled × State → Option (Decoded × State)
  after_payload size (full payload, s) = some (delivered payload size, s)
  after_payload size (stopped part, s) =
      some (record { status = receive_fail; message = none; message_size = some size }, s)

  -- What follows the header, by whether its type is wrong, its size is wrong, and there is memory.
  abbrev pub after_tests : ℕ → Bool → Bool → Bool → ℕ → State → Option (Decoded × State)
  after_tests fuel true bad_size room size s = some (refused receive_fail, s)
  after_tests fuel false true room size s = some (refused receive_fail, s)
  after_tests fuel false false false size s =
      some (record { status = buffer_full; message = none; message_size = some size }, s)
  after_tests fuel false false true size s = recv_loop fuel size [] s >>= after_payload size

  -- The header, once its members are read.
  abbrev pub validate : ℕ → (ℕ → Bool) → ℕ → ℕ → State → Option (Decoded × State)
  validate fuel malloc transport_type size s =
      after_tests fuel (not (transport_type == platform_transport_tcp))
        (size == 0 || ltb 65536 size) (malloc size) size s

  abbrev pub after_header : ℕ → (ℕ → Bool) → Filled × State → Option (Decoded × State)
  after_header fuel malloc (stopped part, s) = some (refused receive_fail, s)
  after_header fuel malloc (full header, s) = do
    transport_type ← load_le32 header 4
    size ← load_le32 header 8
    validate fuel malloc transport_type size s

  unfoldable pub spdm_device_receive_message :
      ℕ → (ℕ → Bool) → Bool → State → Option (Decoded × State)
  spdm_device_receive_message fuel malloc false s = some (refused receive_fail, s)
  spdm_device_receive_message fuel malloc true s =
      recv_loop fuel platform_header_size [] s >>= after_header fuel malloc

-- ===== src/Tcp/Frame.antt =====
-- `TcpMessageTransport` of requester/tcp_helper.hpp: the platform header of twelve bytes in front
-- of a message, written and read. A vector of bytes is a list of numbers below 256.
pub mod Header
pub mod Laws
use spdm_working.Common.{
  ℕ, ◌+◌, ◌<<◌, ◌>>◌, bit_and, bit_or, u8, u32, List, [], ◌∷◌, ◌++◌, Bool, true, false, Option,
  none, some, ltb, ◌==◌, not, length, get_elem?, take, drop,
}
use spdm_working.Common.Partial.{◌>>=◌}
use spdm_working.Libspdm.{Status, success, buffer_too_small, buffer_full, invalid_msg_field}

abbrev pub platform_header_size : ℕ
platform_header_size = 12

abbrev pub tcp_max_message_size : ℕ
tcp_max_message_size = 65536

pub data PlatformCommand : Type 0 where
  normal stop shutdown : PlatformCommand

abbrev pub command_code : PlatformCommand → ℕ
command_code normal = 0x0001
command_code stop = 0xFFFE
command_code shutdown = 0xFFFF

pub data PlatformTransportType : Type 0 where
  no_transport mctp pci_doe tcp : PlatformTransportType

abbrev pub transport_code : PlatformTransportType → ℕ
transport_code no_transport = 0x00
transport_code mctp = 0x01
transport_code pci_doe = 0x02
transport_code tcp = 0x03

-- The four stores of a `uint32_t`, the high byte first.
unfoldable pub store_be32 : ℕ → List ℕ
store_be32 v =
    u8 (bit_and (v >> 24) 0xFF)
    ∷ u8 (bit_and (v >> 16) 0xFF)
    ∷ u8 (bit_and (v >> 8) 0xFF)
    ∷ u8 (bit_and v 0xFF)
    ∷ []

-- `encode`: what it leaves in `buf`. It always returns `LIBSPDM_STATUS_SUCCESS`.
unfoldable pub encode : List ℕ → List ℕ
unfolding store_be32
encode msg =
    store_be32 (command_code normal)
    ++ (store_be32 (transport_code tcp) ++ (store_be32 (u32 (length msg)) ++ msg))

-- The four reads of a `uint32_t` at `buf[k]`; `none` is a read out of range. Both operands of a
-- shift are `uint32_t`, so a shift cuts off what passes 32 bits.
unfoldable pub load_be32 : List ℕ → ℕ → Option ℕ
load_be32 buf k = do
  a ← get_elem? buf k
  b ← get_elem? buf (k + 1)
  c ← get_elem? buf (k + 2)
  d ← get_elem? buf (k + 3)
  some (bit_or (bit_or (bit_or (u32 (a << 24)) (u32 (b << 16))) (u32 (c << 8))) d)

-- `memcpy` of `n` bytes from `buf + offset`; `none` is a read out of range.
unfoldable pub copy : List ℕ → ℕ → ℕ → Option (List ℕ)
copy buf offset n = elim (ltb (length buf) (offset + n)) [
  | true ↦ none
  | false ↦ some (take n (drop offset buf))
]

-- What a decoder leaves behind: its status, and what it wrote through its two pointers.
pub record Decoded : Type 0 where
  pub status : Status
  pub message : Option (List ℕ)
  pub message_size : Option ℕ

abbrev pub refused : Status → Decoded
refused e = record { status = e; message = none; message_size = none }

abbrev pub delivered : List ℕ → ℕ → Decoded
delivered bytes n = record { status = success; message = some bytes; message_size = some n }

abbrev pub out_of_memory : ℕ → Decoded
out_of_memory n = record { status = buffer_full; message = none; message_size = some n }

-- `decode`, where `malloc n` says whether an allocation of `n` bytes succeeds. `size_t` has 64
-- bits, so that the header's size plus a `uint32_t` does not wrap.
unfoldable pub decode : (ℕ → Bool) → List ℕ → Option Decoded
unfolding load_be32 copy
decode malloc buf = elim (ltb (length buf) platform_header_size) [
  | true ↦ some (refused buffer_too_small)
  | false ↦ do
    command ← load_be32 buf 0
    header_transport_type ← load_be32 buf 4
    header_size ← load_be32 buf 8
    elim (not (header_transport_type == transport_code tcp)) [
      | true ↦ some (refused invalid_msg_field)
      | false ↦ elim (ltb (length buf) (platform_header_size + header_size)) [
        | true ↦ some (refused buffer_too_small)
        | false ↦ elim (malloc header_size) [
          | false ↦ some (out_of_memory header_size)
          | true ↦ do
            message ← copy buf platform_header_size header_size
            some (delivered message header_size)
        ]
      ]
    ]
]

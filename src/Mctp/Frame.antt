-- ===== src/Mctp/Frame.antt =====
-- `MctpMessageTransport` of requester/mctp_helper.hpp: the two bytes in front of a message, written
-- and read. A vector of bytes is a list of numbers below 256.
use spdm_working.Common.{
  ℕ, ◌-◌, u8, bit_or, List, [], ◌∷◌, ◌++◌, Bool, true, false, Option, some, ltb, ◌==◌, not, length,
  get_elem?,
}
use spdm_working.Common.Partial.{◌>>=◌}
use spdm_working.Libspdm.{buffer_too_small, invalid_msg_field}
use spdm_working.Tcp.Frame.{Decoded, refused, delivered, out_of_memory, copy}

abbrev pub mctp_type_spdm : ℕ
mctp_type_spdm = 5

abbrev pub header_size : ℕ
header_size = 2

-- `HeaderType`, as it lies in the buffer: the tag's byte, then the endpoint's.
abbrev header : ℕ → ℕ → List ℕ
header tag eid = bit_or (u8 tag) 0x08 ∷ eid ∷ []

-- `encode`: what it leaves in `buf`, where `tag_owner` is `MCTP_TAG_OWNER` of linux/mctp.h. It
-- always returns `LIBSPDM_STATUS_SUCCESS`.
unfoldable pub encode : ℕ → ℕ → List ℕ → List ℕ
encode tag_owner eid msg = header tag_owner eid ++ msg

-- `decode`, where `malloc n` says whether an allocation of `n` bytes succeeds; `none` is a read out
-- of range.
unfoldable pub decode : (ℕ → Bool) → ℕ → List ℕ → Option Decoded
decode malloc eid buf = elim (ltb (length buf) header_size) [
  | true ↦ some (refused buffer_too_small)
  | false ↦ do
    header_eid ← get_elem? buf 1
    elim (not (header_eid == eid)) [
      | true ↦ some (refused invalid_msg_field)
      | false ↦
          let message_size = length buf - header_size in
          elim (malloc message_size) [
            | false ↦ some (out_of_memory message_size)
            | true ↦ do
              message ← copy buf header_size message_size
              some (delivered message message_size)
          ]
    ]
]

-- ===== src/Client/Io/Frame.antt =====
-- The client's header, and what the daemon's decoder makes of it.
use spdm_working.Common.{ℕ, ◌+◌, ◌%◌, ◌^◌, ◌≡◌, refl, ap, List, ◌++◌, Bool, some, length, arith}
use spdm_working.Libspdm.{invalid_msg_field}
use spdm_working.Tcp.Frame.{decode, refused, load_be32}
use spdm_working.Client.Io.{tcp_msg, store_le32, load_le32}

pub length-tcp_msg : (msg : List ℕ) → length (tcp_msg msg) ≡ 12 + length msg
unfolding tcp_msg store_le32
length-tcp_msg msg = omega arith

pub load_le32-tcp_msg :
    (msg rest : List ℕ)
    → (load_le32 (tcp_msg msg ++ rest) 4 ≡ some 3)
      × (load_le32 (tcp_msg msg ++ rest) 8 ≡ some (length msg % 2 ^ 32))
unfolding tcp_msg store_le32 load_le32
load_le32-tcp_msg msg rest = (refl, ap some (omega arith))

-- Whatever the message, whatever follows it and however much memory there is: the daemon's decoder, which reads the
-- header in network byte order, refuses what the client sends.
pub decode-tcp_msg :
    (malloc : ℕ → Bool) (msg rest : List ℕ)
    → decode malloc (tcp_msg msg ++ rest) ≡ some (refused invalid_msg_field)
unfolding decode tcp_msg store_le32 load_be32
decode-tcp_msg malloc msg rest = ground arith

-- ===== src/Client/Io/RoundTrip.antt =====
-- A message that one client sends is the message that another receives.
use spdm_working.Common.{ℕ, ◌+◌, ◌<◌, ◌≡◌, ◌⊎◌, List, ◌++◌, true, none, arith, length, u32}
use spdm_working.Common.Returns.{Returns}
use spdm_working.Libspdm.{receive_fail}
use spdm_working.Tcp.Frame.{Decoded, delivered}
use spdm_working.Tcp.Socket.{Socket}
use spdm_working.Tcp.Io.Write.{Wrote}
use spdm_working.Client.Io.{tcp_msg, store_le32, spdm_device_send_message}
use spdm_working.Client.Io.Frame.{length-tcp_msg}
use spdm_working.Client.Io.Loops.{send_loop-Wrote}

-- The twelve bytes in front of a message.
unfoldable header_of : List ℕ → List ℕ
header_of msg = store_le32 1 ++ (store_le32 3 ++ store_le32 (u32 (length msg)))

module _ (socket : Socket) where
  open socket use {State, incoming, outgoing}

  pub spdm_device_send_message-Wrote :
      (fuel : ℕ) (msg : List ℕ) (s : State)
      → 12 + length msg < fuel
      → Returns (Wrote socket (tcp_msg msg) s) (spdm_device_send_message socket fuel true msg s)
  unfolding spdm_device_send_message
  spdm_device_send_message-Wrote fuel msg s h =
      send_loop-Wrote socket fuel (tcp_msg msg) 0 s (omega (arith, length-tcp_msg msg))

  -- Received: the message, with what follows it still to come. Otherwise nothing is delivered, and
  -- a part of the stream was taken.
  abbrev pub ReceivedMessage : List ℕ → List ℕ → State → Decoded × State → Type 0
  ReceivedMessage message rest s (d, t) =
      ((d ≡ delivered message (length message)) × (incoming t ≡ rest))
      ⊎ ((d.status ≡ receive_fail)
          × (d.message ≡ none)
          × ((lost : List ℕ) × (incoming s ≡ lost ++ incoming t)))

-- ===== src/Tcp/Device/RoundTrip.antt =====
-- A message that one end sends is the message that the other end receives, however the two
-- sockets cut the stream into pieces.
use spdm_working.Common.{
  ℕ, ◌+◌, ◌<◌, ◌^◌, ◌≡◌, refl, sym, ap, ◌∙◌, ◌⊎◌, inl, inr, List, [], ◌++◌, Bool, true, some, arith,
  length, append_inj, append-nil, IsBytes, IsBytes-append,
}
use spdm_working.Common.Returns.{Returns, Returns-bind, Returns-at}
use spdm_working.Libspdm.{Status, success, send_fail, receive_fail}
use spdm_working.Tcp.Frame.{encode, decode, delivered, Decoded}
use spdm_working.Tcp.Frame.Header.{stated_size, stated_size-append}
use spdm_working.Tcp.Frame.Laws.{decode-encode, encode-IsBytes, length-encode, stated_size-encode}
use spdm_working.Tcp.Socket.{Socket}
use spdm_working.Tcp.Io.{write, read}
use spdm_working.Tcp.Io.Write.{Wrote, write-Wrote}
use spdm_working.Tcp.Io.ReadFrame.{GaveUp, TookFrame, read-TookFrame}
use spdm_working.Tcp.Device.{
  device_send_message, sent_or_failed, device_receive_message, after_read,
}

module _ (socket : Socket) where
  open socket use {State, incoming, outgoing, interruptions}

  -- Success: the whole frame of the message went out. Failure: a part of it.
  abbrev pub SentFrame : List ℕ → State → Status × State → Type 0
  SentFrame message = Wrote socket (encode message)

  sent_or_failed-SentFrame :
      (message : List ℕ) (s : State) (r : Status × State)
      → Wrote socket (encode message) s r
      → Returns (SentFrame message s) (sent_or_failed socket r)
  sent_or_failed-SentFrame message s (success, t) w = w
  sent_or_failed-SentFrame message s (send_fail, t) w = w
  sent_or_failed-SentFrame message s (_, t) w = absurd w

  pub device_send_message-SentFrame :
      (fuel : ℕ) (message : List ℕ) (timeout : ℕ) (s : State)
      → 12 + length message + interruptions s < fuel
      → Returns
          (SentFrame message s)
          (device_send_message socket fuel (some true) message timeout s)
  unfolding device_send_message
  device_send_message-SentFrame fuel message timeout s h =
      Returns-bind (Wrote socket (encode message) s) (SentFrame message s)
        (write socket fuel true (encode message) timeout s) (sent_or_failed socket)
        (write-Wrote socket fuel (encode message) timeout s (omega (arith, length-encode message)))
        (sent_or_failed-SentFrame message s)

  -- A frame taken off a stream that begins with a message's frame is that frame.
  taken_is_frame :
      (message rest buf : List ℕ) (s t : State)
      → length message < 2 ^ 32
      → incoming s ≡ encode message ++ rest
      → TookFrame socket s (success, buf, t)
      → (buf ≡ encode message) × (incoming t ≡ rest)
  taken_is_frame message rest buf s t small e w =
      append_inj buf (incoming t) (encode message) rest
        (omega (arith, w.0, length-encode message, same_size)) (sym w.2 ∙ e)
    where
      same_size : stated_size buf ≡ length message
      same_size =
          sym (stated_size-append buf (incoming t) (omega (arith, w.0)))
          ∙ ap stated_size (sym w.2 ∙ e)
          ∙ stated_size-encode message rest small

  -- Received: the message, with what follows its frame still to come. Otherwise the read gave up.
  abbrev pub ReceivedMessage : List ℕ → List ℕ → State → Decoded × State → Type 0
  ReceivedMessage message rest s (d, t) =
      ((d ≡ delivered message (length message)) × (incoming t ≡ rest))
      ⊎ ((d.status ≡ receive_fail)
          × ((lost : List ℕ) × (incoming s ≡ lost ++ incoming t) × GaveUp lost))

  module _ (malloc : ℕ → Bool) (message rest : List ℕ) (s : State) (bs : IsBytes message)
      (small : length message < 2 ^ 32) (room : malloc (length message) ≡ true)
      (e : incoming s ≡ encode message ++ rest) where
    after_read-ReceivedMessage :
        (r : Status × List ℕ × State)
        → TookFrame socket s r
        → Returns (ReceivedMessage message rest s) (after_read socket malloc r)
    after_read-ReceivedMessage (success, buf, t) w =
        let (whole, left) = taken_is_frame message rest buf s t small e w in
        rw (whole, decoded) (inl (refl, left))
      where
        decoded : decode malloc (encode message) ≡ some (delivered message (length message))
        decoded =
            ap (decode malloc) (sym (append-nil (encode message)))
            ∙ decode-encode malloc message [] bs tt small room
    after_read-ReceivedMessage (receive_fail, buf, t) w = inr (refl, w.0)
    after_read-ReceivedMessage (_, buf, t) w = absurd w

  pub device_receive_message-ReceivedMessage :
      (malloc : ℕ → Bool) (message rest : List ℕ) (fuel timeout : ℕ) (s : State)
      → IsBytes message
      → IsBytes rest
      → length message < 2 ^ 32
      → malloc (length message) ≡ true
      → incoming s ≡ encode message ++ rest
      → 65536 + interruptions s < fuel
      → Returns
          (ReceivedMessage message rest s)
          (device_receive_message socket fuel malloc (some true) timeout s)
  unfolding device_receive_message
  device_receive_message-ReceivedMessage malloc message rest fuel timeout s bs rs small room e h =
      Returns-bind (TookFrame socket s) (ReceivedMessage message rest s)
        (read socket fuel true timeout s) (after_read socket malloc)
        (read-TookFrame socket fuel timeout s
          (rw e (IsBytes-append (encode message) rest (encode-IsBytes message bs) rs)) h)
        (after_read-ReceivedMessage malloc message rest s bs small room e)

-- Between two sockets, with fuel for both, for a message of bytes that there is memory for: a
-- message whose sending succeeds, on a stream that held nothing unsent, is
-- the message that the peer receives from that stream, or the peer's read gives up before the
-- frame's end; the bytes that follow the frame stay on the stream.
pub device_receive-device_send :
    (here there : Socket) (malloc : ℕ → Bool) (message rest : List ℕ) (fuel timeout : ℕ)
    (s t : here.State) (u : there.State)
    → IsBytes message
    → IsBytes rest
    → length message < 2 ^ 32
    → malloc (length message) ≡ true
    → 12 + length message + here.interruptions s < fuel
    → 65536 + there.interruptions u < fuel
    → here.outgoing s ≡ []
    → device_send_message here fuel (some true) message timeout s ≡ some (success, t)
    → there.incoming u ≡ here.outgoing t ++ rest
    → Returns
        (ReceivedMessage there message rest u)
        (device_receive_message there fuel malloc (some true) timeout u)
device_receive-device_send here there malloc message rest fuel timeout s t u bs rs small room f g
      empty done e =
    device_receive_message-ReceivedMessage there malloc message rest fuel timeout u bs rs small room
      (e ∙ ap (λ x. x ++ rest) (frame.0 ∙ ap (λ x. x ++ encode message) empty)) g
  where
    frame : SentFrame here message s (success, t)
    frame =
        Returns-at (SentFrame here message s)
          (device_send_message here fuel (some true) message timeout s)
          (device_send_message-SentFrame here fuel message timeout s f) done

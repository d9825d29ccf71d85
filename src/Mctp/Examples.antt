-- ===== src/Mctp/Examples.antt =====
-- A network of datagrams where no call fails, and the theorems at concrete inputs.
use spdm_working.Common.{
  ℕ, ◌≡◌, refl, sym, List, [], ◌∷◌, ◌++◌, true, false, some, none, Option, length,
}
use spdm_working.Common.Returns.{Returns}
use spdm_working.Libspdm.{success, send_fail, invalid_msg_field}
use spdm_working.Tcp.Frame.{refused}
use spdm_working.Mctp.Socket.{Datagrams, Received, Peeks, Arrives}
use spdm_working.Mctp.Frame.{encode, decode}
use spdm_working.Mctp.Io.{write}
use spdm_working.Mctp.Device.{device_send_message, device_receive_message}
use spdm_working.Mctp.Device.Outcome.{
  SentOrFailed, device_send_message-SentOrFailed, Taken, device_receive_message-Taken,
}
use spdm_working.Mctp.Device.RoundTrip.{
  Received as Delivery, device_receive_message-device_send_message,
}

record Wire : Type 0 where
  rx : List (ℕ × List ℕ)
  tx : List (ℕ × List ℕ)

abbrev peek_at : List (ℕ × List ℕ) → Option ℕ
peek_at [] = none
peek_at ((eid, bytes) ∷ rest) = some (length bytes)

abbrev take_from : List (ℕ × List ℕ) → Received
take_from [] = record { succeeded = false; s_addr = 0; bytes = [] }
take_from ((eid, bytes) ∷ rest) = record { succeeded = true; s_addr = eid; bytes = bytes }

abbrev tail_of : List (ℕ × List ℕ) → List (ℕ × List ℕ)
tail_of [] = []
tail_of (d ∷ rest) = rest

peeks :
    (waiting : List (ℕ × List ℕ)) (s : Wire)
    → s.rx ≡ waiting
    → Peeks (λ w. w.rx) (λ w. w.tx) s (peek_at waiting) s
peeks [] s e = (refl, refl)
peeks ((eid, bytes) ∷ rest) s e = ((refl, refl), (eid, bytes, rest, e, refl))

arrives :
    (waiting : List (ℕ × List ℕ)) (want : ℕ) (s : Wire)
    → s.rx ≡ waiting
    → Arrives (λ w. w.rx) (λ w. w.tx) want s (take_from waiting) (record s { rx = tail_of waiting })
arrives [] want s e = (sym e, refl)
arrives ((eid, bytes) ∷ rest) want s e = (refl, λ eid' bytes' rest' e' fits. (cc, cc, cc))

abbrev wire : Datagrams
wire = record {
  State = Wire;
  sendto = λ eid bytes s. (true, record s { tx = s.tx ++ (eid, bytes) ∷ [] });
  peek = λ s. (peek_at s.rx, s);
  recvfrom = λ want s. (take_from s.rx, record s { rx = tail_of s.rx });
  pending = λ s. s.rx;
  sent = λ s. s.tx;
  sendto-Departs = λ eid bytes s. (refl, refl);
  peek-Peeks = λ s. peeks s.rx s refl;
  recvfrom-Arrives = λ want s. arrives s.rx want s refl;
}

abbrev idle : Wire
idle = record { rx = []; tx = [] }

abbrev waiting : Wire
waiting = record { rx = (9, 0x10 ∷ 0x84 ∷ []) ∷ []; tx = [] }

sends :
    device_send_message wire 8
      (some record { eid = 12; is_open = true })
      (5 ∷ 0x10 ∷ 0x84 ∷ [])
      idle
    ≡ some (success, record { rx = []; tx = (12, 0x10 ∷ 0x84 ∷ []) ∷ [] })
unfolding device_send_message write encode
sends = refl

-- An empty message is read past its end.
sends_nothing : device_send_message wire 8 (some record { eid = 12; is_open = true }) [] idle ≡ none
unfolding device_send_message write encode
sends_nothing = refl

sends_closed :
    device_send_message wire 8 (some record { eid = 12; is_open = false }) (5 ∷ []) idle
    ≡ some (send_fail, idle)
unfolding device_send_message write encode
sends_closed = refl

decodes_other : decode (λ n. true) 9 (1 ∷ 8 ∷ 5 ∷ []) ≡ some (refused invalid_msg_field)
unfolding decode
decodes_other = refl

device_send_message-SentOrFailed_example :
    Returns
      (SentOrFailed wire 12 (0x10 ∷ []) idle)
      (device_send_message wire 8 (some record { eid = 12; is_open = true }) (5 ∷ 0x10 ∷ []) idle)
device_send_message-SentOrFailed_example =
    device_send_message-SentOrFailed wire 8 12 5 (0x10 ∷ []) idle

device_receive_message-Taken_example :
    Returns
      (Taken wire (λ n. true) 9 9 (0x10 ∷ 0x84 ∷ []) [] waiting)
      (device_receive_message wire (λ n. true) (some record { eid = 9; is_open = true }) waiting)
device_receive_message-Taken_example =
    device_receive_message-Taken wire (λ n. true) 9 9 (0x10 ∷ 0x84 ∷ []) [] waiting refl

device_receive_message-device_send_message_example :
    Returns
      (Delivery wire (5 ∷ 0x10 ∷ 0x84 ∷ []) [] waiting)
      (device_receive_message wire (λ n. true) (some record { eid = 9; is_open = true }) waiting)
device_receive_message-device_send_message_example =
    device_receive_message-device_send_message wire wire (λ n. true) 8 9 12 5 (0x10 ∷ 0x84 ∷ [])
      (0x10 ∷ 0x84 ∷ []) [] idle (record { rx = []; tx = (12, 0x10 ∷ 0x84 ∷ []) ∷ [] }) waiting refl
      refl sends refl refl

-- ===== src/Tcp/Examples.antt =====
-- The theorems at concrete inputs.
use spdm_working.Common.{
  ℕ, ◌+◌, ◌-◌, ◌*◌, ◌^◌, ◌≤◌, ◌<◌, ◌≡◌, ◌↔◌, ◌⊎◌, refl, List, [], ◌∷◌, ◌++◌, Bool, true, some,
  arith, length, take, drop,
}
use spdm_working.Common.Returns.{Returns}
use spdm_working.Libspdm.{success}
use spdm_working.Tcp.Frame.{encode, decode, delivered}
use spdm_working.Tcp.Frame.Header.{be_value}
use spdm_working.Tcp.Frame.Laws.{decode-delivered_iff}
use spdm_working.Tcp.Pipe.{pipe, empty, holding}
use spdm_working.Tcp.Io.{write, read, to_timeval, set_socket_timeout, send_loop}
use spdm_working.Tcp.Io.Timeout.{to_timeval_lem}
use spdm_working.Tcp.Io.Write.{Wrote, write-Wrote}
use spdm_working.Tcp.Io.ReadFrame.{TookFrame, read-TookFrame}
use spdm_working.Tcp.Device.{device_send_message, device_receive_message}
use spdm_working.Tcp.Device.RoundTrip.{ReceivedMessage, device_receive-device_send}

abbrev request : List ℕ
request = 0x10 ∷ 0x84 ∷ 0x00 ∷ 0x00 ∷ []

abbrev frame : List ℕ
frame = 0 ∷ 0 ∷ 0 ∷ 1 ∷ 0 ∷ 0 ∷ 0 ∷ 3 ∷ 0 ∷ 0 ∷ 0 ∷ 4 ∷ 0x10 ∷ 0x84 ∷ 0x00 ∷ 0x00 ∷ []

encodes : encode request ≡ frame
unfolding encode
encodes = refl

decode-delivered_iff_example : (decode (λ n. true) frame ≡ some (delivered request 4)) ↔ (
    (16 ≤ length frame)
    × (be_value (drop 4 frame) ≡ 3)
    × (be_value (drop 8 frame) ≡ 4)
    × (◌≡◌ {A = Bool} true true)
    × (request ≡ take 4 (drop 12 frame)))
decode-delivered_iff_example = decode-delivered_iff (λ n. true) frame request 4 (omega arith)

sends : write pipe 20 true request 1000 empty ≡ some (success, record empty { tx = request })
unfolding write send_loop set_socket_timeout
sends = refl

write-Wrote_example : Returns (Wrote pipe frame empty) (write pipe 20 true frame 1000 empty)
write-Wrote_example = write-Wrote pipe 20 frame 1000 empty (omega arith)

read-TookFrame_example :
    Returns
      (TookFrame pipe (holding (frame ++ 9 ∷ [])))
      (read pipe 70000 true 1000 (holding (frame ++ 9 ∷ [])))
read-TookFrame_example =
    read-TookFrame pipe 70000 1000 (holding (frame ++ 9 ∷ [])) (omega arith) (omega arith)

sent_frame :
    device_send_message pipe 70000 (some true) request 1000 empty
    ≡ some (success, record empty { tx = frame })
unfolding device_send_message write send_loop set_socket_timeout encode
sent_frame = refl

device_receive-device_send_example :
    Returns
      (ReceivedMessage pipe request (9 ∷ []) (holding (frame ++ 9 ∷ [])))
      (device_receive_message pipe 70000 (λ n. true) (some true) 1000 (holding (frame ++ 9 ∷ [])))
device_receive-device_send_example =
    device_receive-device_send pipe pipe (λ n. true) request (9 ∷ []) 70000 1000 empty
      (record empty { tx = frame }) (holding (frame ++ 9 ∷ [])) (omega arith) (omega arith)
      (omega arith) refl (omega arith) (omega arith) refl sent_frame refl

to_timeval_lem_example :
    let tv = to_timeval 1500000 in
    let set = tv.tv_sec * 1000000 + tv.tv_usec in
    (tv.tv_usec < 1000000)
    × ((set ≡ 0) ↔ ((◌≡◌ {A = ℕ} 1500000 0) ⊎ (◌≡◌ {A = ℕ} 1500000 (2 ^ 64 - 1))))
    × ((set ≡ 0) ⊎ ((1500000 ≤ set) × (5000000 ≤ set) × ((set ≡ 1500000) ⊎ (set ≡ 5000000))))
to_timeval_lem_example = to_timeval_lem 1500000

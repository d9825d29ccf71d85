-- ===== src/Client/Io/Bounds.antt =====
-- What the client delivers of any stream.
use spdm_working.Common.{
  ℕ, zero, suc, ◌+◌, ◌*◌, ◌^◌, ◌≤◌, ◌<◌, ◌==◌, ◌≡◌, ◌≢◌, refl, sym, ap, ◌∙◌, ◌⊎◌, inl, inr, List,
  [], ◌∷◌, ◌++◌, Bool, true, false, some, none, arith, length, append_assoc, get_elem?, not, ◌||◌,
  ltb,
}
use spdm_working.Common.Returns.{Returns, Returns-bind}
use spdm_working.Libspdm.{success}
use spdm_working.Tcp.Frame.{Decoded, delivered}
use spdm_working.Tcp.Socket.{Socket}
use spdm_working.Tcp.Io.{Filled, full, stopped}
use spdm_working.Tcp.Io.Read.{Took}
use spdm_working.Client.Io.{
  load_le32, spdm_device_receive_message, recv_loop, after_header, after_payload, after_tests,
}
use spdm_working.Client.Io.Loops.{recv_loop-Took}

get_elem?-within : (xs : List ℕ) (k : ℕ) → k < length xs → (a : ℕ) × (get_elem? xs k ≡ some a)
get_elem?-within [] k h = absurd (omega arith)
get_elem?-within (x ∷ xs) zero h = (x, refl)
get_elem?-within (x ∷ xs) (suc k) h = get_elem?-within xs k (omega arith)

load_le32-within :
    (buf : List ℕ) (k : ℕ) → k + 4 ≤ length buf → (v : ℕ) × (load_le32 buf k ≡ some v)
unfolding load_le32
load_le32-within buf k h =
    let (a, ea) = get_elem?-within buf k (omega arith) in
    let (b, eb) = get_elem?-within buf (k + 1) (omega arith) in
    let (c, ec) = get_elem?-within buf (k + 2) (omega arith) in
    let (d, ed) = get_elem?-within buf (k + 3) (omega arith) in
    (a + b * 2 ^ 8 + c * 2 ^ 16 + d * 2 ^ 24, rw (ea, eb, ec, ed) refl)

module _ (socket : Socket) where
  open socket use {State, incoming}

  -- A message of 1 to 65536 bytes was taken off the stream, behind twelve bytes that state the
  -- type of the TCP transport and the message's size; or nothing is delivered.
  abbrev pub Delivers : State → Decoded × State → Type 0
  Delivers s (d, t) =
      ((header : List ℕ) × (message : List ℕ) × (incoming s ≡ header ++ (message ++ incoming t))
        × (length header ≡ 12)
        × (load_le32 header 4 ≡ some 3)
        × (load_le32 header 8 ≡ some (length message))
        × (0 < length message)
        × (length message ≤ 65536)
        × (d ≡ delivered message (length message)))
      ⊎ ((d.status ≢ success)
          × (d.message ≡ none)
          × ((lost : List ℕ) × (incoming s ≡ lost ++ incoming t)))

  module _ (fuel : ℕ) (malloc : ℕ → Bool) (s : State) (enough : 65536 < fuel) (header : List ℕ)
      (whole : length header ≡ 12) where
    gives_up :
        (d : Decoded) (t : State)
        → d.status ≢ success
        → d.message ≡ none
        → incoming s ≡ header ++ incoming t
        → Delivers s (d, t)
    gives_up d t failed nothing i = inr (failed, nothing, (header, i))

    after_payload-Delivers :
        (t : State) (size : ℕ)
        → incoming s ≡ header ++ incoming t
        → load_le32 header 4 ≡ some 3
        → load_le32 header 8 ≡ some size
        → 0 < size
        → size ≤ 65536
        → (r : Filled × State) → Took socket size [] t r
        → Returns (Delivers s) (after_payload socket size r)
    after_payload-Delivers t size i ty sz low high (full payload, u) w = inl (
      header,
      payload,
      i ∙ ap (λ x. header ++ x) w.1,
      whole,
      ty,
      sz ∙ ap some (sym w.0),
      omega (arith, w.0),
      omega (arith, w.0),
      ap (delivered payload) (sym w.0),
    )
    after_payload-Delivers t size i ty sz low high (stopped part, u) w = inr (
      (λ e. absurd cc),
      refl,
      (header ++ part, i ∙ ap (λ x. header ++ x) w.1 ∙ sym (append_assoc header part (incoming u))),
    )

    after_tests-Delivers :
        (t : State) (type size : ℕ) (bad_type bad_size room : Bool)
        → not (type == 3) ≡ bad_type
        → (size == 0 || ltb 65536 size) ≡ bad_size
        → incoming s ≡ header ++ incoming t
        → load_le32 header 4 ≡ some type
        → load_le32 header 8 ≡ some size
        → Returns (Delivers s) (after_tests socket fuel bad_type bad_size room size t)
    after_tests-Delivers t type size true bad_size room e f i ty sz =
        gives_up _ t (λ h. absurd cc) refl i
    after_tests-Delivers t type size false true room e f i ty sz =
        gives_up _ t (λ h. absurd cc) refl i
    after_tests-Delivers t type size false false false e f i ty sz =
        gives_up _ t (λ h. absurd cc) refl i
    after_tests-Delivers t type size false false true e f i ty sz =
        let is_tcp : type ≡ 3 = ground (arith, e) in
        let low : 0 < size = ground (arith, f) in
        let high : size ≤ 65536 = ground (arith, f) in
        Returns-bind (Took socket size [] t) (Delivers s) (recv_loop socket fuel size [] t)
          (after_payload socket size)
          (recv_loop-Took socket fuel size [] t (omega arith) (omega arith))
          (after_payload-Delivers t size i (ty ∙ ap some is_tcp) sz low high)

  after_header-Delivers :
      (fuel : ℕ) (malloc : ℕ → Bool) (s : State)
      → 65536 < fuel
      → (r : Filled × State) → Took socket 12 [] s r
      → Returns (Delivers s) (after_header socket fuel malloc r)
  after_header-Delivers fuel malloc s enough (stopped part, t) w =
      inr ((λ e. absurd cc), refl, (part, w.1))
  after_header-Delivers fuel malloc s enough (full header, t) w =
      let (type, ty) = load_le32-within header 4 (omega (arith, w.0)) in
      let (size, sz) = load_le32-within header 8 (omega (arith, w.0)) in
      rw (ty, sz)
        (after_tests-Delivers fuel malloc s enough header w.0 t type size (not (type == 3))
          (size == 0 || ltb 65536 size) (malloc size) refl refl w.1 ty sz)

  -- On an open socket with fuel for the largest message, whatever the stream holds:
  -- `spdmDeviceReceiveMessage` returns. What it delivers is a message of 1 to 65536 bytes that it took off the stream,
  -- behind a header of twelve bytes that states the TCP transport and the message's size; otherwise
  -- it fails, delivers nothing, and has taken a part of the stream.
  pub spdm_device_receive_message-Delivers :
      (fuel : ℕ) (malloc : ℕ → Bool) (s : State)
      → 65536 < fuel
      → Returns (Delivers s) (spdm_device_receive_message socket fuel malloc true s)
  unfolding spdm_device_receive_message
  spdm_device_receive_message-Delivers fuel malloc s enough =
      Returns-bind (Took socket 12 [] s) (Delivers s) (recv_loop socket fuel 12 [] s)
        (after_header socket fuel malloc)
        (recv_loop-Took socket fuel 12 [] s (omega arith) (omega arith))
        (after_header-Delivers fuel malloc s enough)

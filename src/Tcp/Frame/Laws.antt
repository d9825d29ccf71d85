-- ===== src/Tcp/Frame/Laws.antt =====
-- The decoder on every buffer, and the encoder's messages read back.
use spdm_working.Common.{
  ℕ, ◌+◌, ◌^◌, ◌≤◌, ◌<◌, ◌≡◌, ◌↔◌, refl, sym, List, ◌++◌, Bool, true, some, ltb, ◌==◌, not,
  if◌then◌else◌, length, take, drop, arith, IsBytes, u32, length-append, length-drop,
  take-length_append, drop-IsBytes, IsBytes-append,
}
use spdm_working.Libspdm.{buffer_too_small, invalid_msg_field}
use spdm_working.Tcp.Frame.{
  encode, decode, copy, store_be32, load_be32, Decoded, refused, delivered, out_of_memory,
}
use spdm_working.Tcp.Frame.Header.{be_value, load_be32-be_value, be_value-store_be32}

module _ (malloc : ℕ → Bool) (buf : List ℕ) (bs : IsBytes buf) where
  -- What a reader of the header expects.
  abbrev verdict : Decoded
  verdict =
      let size = be_value (drop 8 buf) in
      if ltb (length buf) 12
      then refused buffer_too_small
      else if not (be_value (drop 4 buf) == 3)
      then refused invalid_msg_field
      else if ltb (length buf) (12 + size)
      then refused buffer_too_small
      else if malloc size
      then delivered (take size (drop 12 buf)) size
      else out_of_memory size

  load_at : (k : ℕ) → k + 4 ≤ length buf → load_be32 buf k ≡ some (be_value (drop k buf))
  load_at k h =
      load_be32-be_value buf (drop k buf) k refl (drop-IsBytes k buf bs)
        (omega (arith, length-drop k buf))

  decode-verdict : decode malloc buf ≡ some verdict
  unfolding decode copy
  decode-verdict = ground (arith, load_at 0, load_at 4, load_at 8)

-- For a buffer of bytes, a message is delivered exactly when the buffer holds a whole frame of the TCP transport and the
-- memory for it is there; what is delivered is the payload of the size that the header states.
pub decode-delivered_iff :
    (malloc : ℕ → Bool) (buf msg : List ℕ) (n : ℕ)
    → IsBytes buf
    → (decode malloc buf ≡ some (delivered msg n)) ↔ (
        (12 + n ≤ length buf)
        × (be_value (drop 4 buf) ≡ 3)
        × (be_value (drop 8 buf) ≡ n)
        × (malloc n ≡ true)
        × (msg ≡ take n (drop 12 buf)))
decode-delivered_iff malloc buf msg n bs =
    rw (decode-verdict malloc buf bs) (ground (arith, length-drop 8 buf))

pub encode-IsBytes : (msg : List ℕ) → IsBytes msg → IsBytes (encode msg)
unfolding encode store_be32
encode-IsBytes msg bs = ground arith

module _ (msg extra : List ℕ) where
  frame : List ℕ
  frame = encode msg ++ extra

  length-frame : length frame ≡ 12 + length msg + length extra
  unfolding frame encode store_be32
  length-frame = omega (arith, length-append msg extra)

  type-frame : be_value (drop 4 frame) ≡ 3
  unfolding frame encode store_be32
  type-frame = refl

  size-frame : length msg < 2 ^ 32 → be_value (drop 8 frame) ≡ length msg
  size-frame h =
      let small : u32 (length msg) ≡ length msg = omega arith in
      unfold frame encode in rw small (be_value-store_be32 (length msg) (msg ++ extra) h)

  payload-frame : take (length msg) (drop 12 frame) ≡ msg
  unfolding frame encode store_be32
  payload-frame = take-length_append msg extra

-- Round trip, for a message of bytes below 2 ^ 32 long that there is memory for: its frame is read
-- back as the message, whatever bytes follow it in the buffer.
pub decode-encode :
    (malloc : ℕ → Bool) (msg extra : List ℕ)
    → IsBytes msg
    → IsBytes extra
    → length msg < 2 ^ 32
    → malloc (length msg) ≡ true
    → decode malloc (encode msg ++ extra) ≡ some (delivered msg (length msg))
unfolding frame
decode-encode malloc msg extra bs xs h room =
    (decode-delivered_iff malloc (encode msg ++ extra) msg (length msg)
        (IsBytes-append (encode msg) extra (encode-IsBytes msg bs) xs)).1
      (
        omega (arith, length-frame msg extra),
        type-frame msg extra,
        size-frame msg extra h,
        room,
        sym (payload-frame msg extra),
      )

pub length-encode : (msg : List ℕ) → length (encode msg) ≡ 12 + length msg
unfolding encode store_be32
length-encode msg = omega arith

pub stated_size-encode :
    (msg rest : List ℕ) → length msg < 2 ^ 32 → be_value (drop 8 (encode msg ++ rest)) ≡ length msg
unfolding frame
stated_size-encode msg rest h = size-frame msg rest h

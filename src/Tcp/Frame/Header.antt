-- ===== src/Tcp/Frame/Header.antt =====
-- The header as positional numbers: four digits of base 256 each.
use spdm_working.Common.{
  ℕ, ◌+◌, ◌*◌, ◌^◌, ◌≤◌, ◌<◌, ◌<<◌, ◌>>◌, bit_or, ◌≡◌, refl, ap, List, [], ◌∷◌, ◌++◌, some, length,
  drop, arith, IsBytes, u32, get_elem?-first, get_elem?-rest, drop-append_left, length-drop,
}
use spdm_working.Common.Bits.{bit_or_fields, bit_and_low}
use spdm_working.Tcp.Frame.{store_be32, load_be32}

-- The first four bytes as a number, the high byte first.
abbrev pub be_value : List ℕ → ℕ
be_value (a ∷ b ∷ c ∷ d ∷ rest) = a * 16777216 + b * 65536 + c * 256 + d
be_value _ = 0

joined :
    (a b c d : ℕ)
    → a < 256
    → b < 256
    → c < 256
    → d < 256
    → bit_or (bit_or (bit_or (u32 (a << 24)) (u32 (b << 16))) (u32 (c << 8))) d
      ≡ a * 16777216 + b * 65536 + c * 256 + d
joined a b c d ha hb hc hd =
    let wa : u32 (a << 24) ≡ a * 2 ^ 24 = omega arith in
    let wb : u32 (b << 16) ≡ b * 65536 = omega arith in
    let wc : u32 (c << 8) ≡ c * 256 = omega arith in
    let one : bit_or (a * 2 ^ 24) (b * 65536) ≡ (a * 256 + b) * 2 ^ 16 =
      omega (arith, bit_or_fields 24 a (b * 65536) (omega arith)) in
    let two : bit_or ((a * 256 + b) * 2 ^ 16) (c * 256) ≡ (a * 65536 + b * 256 + c) * 2 ^ 8 =
      omega (arith, bit_or_fields 16 (a * 256 + b) (c * 256) (omega arith)) in
    rw (wa, wb, wc, one, two, bit_or_fields 8 (a * 65536 + b * 256 + c) d (omega arith))
      (omega arith)

pub load_be32-be_value :
    (buf rest : List ℕ) (k : ℕ)
    → drop k buf ≡ rest
    → IsBytes rest
    → 4 ≤ length rest
    → load_be32 buf k ≡ some (be_value rest)
unfolding load_be32
load_be32-be_value buf [] k e bs h = absurd (omega arith)
load_be32-be_value buf (a ∷ []) k e bs h = absurd (omega arith)
load_be32-be_value buf (a ∷ b ∷ []) k e bs h = absurd (omega arith)
load_be32-be_value buf (a ∷ b ∷ c ∷ []) k e bs h = absurd (omega arith)
load_be32-be_value buf (a ∷ b ∷ c ∷ d ∷ rest) k e bs h =
    rw
      (
        get_elem?-first buf k e,
        get_elem?-rest buf k e 1,
        get_elem?-rest buf k e 2,
        get_elem?-rest buf k e 3,
        load_be32,
      )
      (ap some (joined a b c d bs.0 bs.1.0 bs.1.1.0 bs.1.1.1.0))

-- Storing and reading a word gives it back.
pub be_value-store_be32 : (v : ℕ) (rest : List ℕ) → v < 2 ^ 32 → be_value (store_be32 v ++ rest) ≡ v
unfolding store_be32
be_value-store_be32 v rest h = omega (
  arith,
  bit_and_low 8 v,
  bit_and_low 8 (v >> 24),
  bit_and_low 8 (v >> 16),
  bit_and_low 8 (v >> 8),
)

pub length-store_be32 : (v : ℕ) → length (store_be32 v) ≡ 4
unfolding store_be32
length-store_be32 v = refl

pub store_be32-IsBytes : (v : ℕ) → IsBytes (store_be32 v)
unfolding store_be32
store_be32-IsBytes v = omega arith

be_value-append :
    (bytes more : List ℕ) → 4 ≤ length bytes → be_value (bytes ++ more) ≡ be_value bytes
be_value-append [] more h = absurd (omega arith)
be_value-append (a ∷ []) more h = absurd (omega arith)
be_value-append (a ∷ b ∷ []) more h = absurd (omega arith)
be_value-append (a ∷ b ∷ c ∷ []) more h = absurd (omega arith)
be_value-append (a ∷ b ∷ c ∷ d ∷ bytes) more h = refl

-- The size that a frame's header states.
abbrev pub stated_size : List ℕ → ℕ
stated_size buf = be_value (drop 8 buf)

pub stated_size-append :
    (buf more : List ℕ) → 12 ≤ length buf → stated_size (buf ++ more) ≡ stated_size buf
stated_size-append buf more h =
    rw (drop-append_left 8 buf more (omega arith))
      (be_value-append (drop 8 buf) more (omega (arith, length-drop 8 buf)))

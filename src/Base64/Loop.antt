-- ===== src/Base64/Loop.antt =====
-- The index loop meets the description by groups: no read is out of range, and the fuel suffices.
use mathlib.Core.Option
use spdm_working.Common.{
  ℕ, zero, suc, ◌+◌, ◌*◌, ◌/◌, ◌%◌, ◌^◌, ◌≤◌, ◌<◌, ◌<<◌, ◌>>◌, bit_or, ◌≡◌, refl, ap, List, [], ◌∷◌,
  ◌++◌, Option, some, length, get_elem?, drop, arith, IsBytes, append_assoc, drop-drop,
  get_elem?-rest, get_elem?-first, length-rest, append-nil, sym, ◌∙◌,
}
use spdm_working.Common.Partial.{◌>>=◌}
use spdm_working.Common.Bits.{bit_or_fields, bit_and_low}
use spdm_working.Base64.{
  b64_table, put, put_four, full_groups, last_group, pad_one, pad_two, base64_encode,
}
use spdm_working.Base64.Reference.{symbol, encoding, padding}

module _ {ℓ} {A : Type ℓ} where
  get_elem?-get_or :
      (xs : List A) (i : ℕ) (d : A)
      → i < length xs
      → get_elem? xs i ≡ some (Option.get_or (get_elem? xs i) d)
  get_elem?-get_or [] i d h = absurd (omega arith)
  get_elem?-get_or (x ∷ xs) zero d h = refl
  get_elem?-get_or (x ∷ xs) (suc i) d h = get_elem?-get_or xs i d (omega arith)

-- The table read succeeds for every value of six bits.
put_lem : (base64 : List ℕ) (k : ℕ) → put base64 k ≡ some (base64 ++ symbol (k % 64) ∷ [])
unfolding symbol put
put_lem base64 k = rw (bit_and_low 6 k, get_elem?-get_or b64_table (k % 64) b'=' (omega arith)) refl

-- Three bytes in one number.
joined :
    (a b c : ℕ) → b < 256 → c < 256 → bit_or (bit_or (a << 16) (b << 8)) c ≡ a * 65536 + b * 256 + c
joined a b c hb hc = omega (
  arith,
  bit_or_fields 16 a (b * 256) (omega arith),
  ap (λ t. bit_or t c) shifted,
  bit_or_fields 8 (a * 256 + b) c (omega arith),
)
  where
    shifted : bit_or (a << 16) (b << 8) ≡ (a * 256 + b) * 2 ^ 8
    shifted = omega (arith, bit_or_fields 16 a (b * 256) (omega arith))

-- Four symbols for three bytes.
group_symbols :
    (a b c : ℕ)
    → a < 256
    → b < 256
    → c < 256
    → let n = bit_or (bit_or (a << 16) (b << 8)) c in
      ((n >> 18) % 64 ≡ a / 4)
      × ((n >> 12) % 64 ≡ a % 4 * 16 + b / 16)
      × ((n >> 6) % 64 ≡ b % 16 * 4 + c / 64)
      × (n % 64 ≡ c % 64)
group_symbols a b c ha hb hc = rw (joined a b c hb hc) (omega arith)

put_four_lem :
    (n : ℕ) (base64 : List ℕ)
    → put_four n base64
      ≡ some (
          base64
          ++ symbol ((n >> 18) % 64)
            ∷ symbol ((n >> 12) % 64)
            ∷ symbol ((n >> 6) % 64)
            ∷ symbol (n % 64)
            ∷ [])
unfolding put_four
put_four_lem n base64 = simp (put_lem, append_assoc)

pair_symbols :
    (a b : ℕ)
    → a < 256
    → b < 256
    → let n = bit_or (a << 16) (b << 8) in
      ((n >> 12) % 64 ≡ a % 4 * 16 + b / 16) × ((n >> 6) % 64 ≡ b % 16 * 4)
pair_symbols a b ha hb =
    let sum : bit_or (a << 16) (b << 8) ≡ a * 65536 + b * 256 =
      bit_or_fields 16 a (b * 256) (omega arith) in
    rw sum (omega arith)

one_symbols :
    (a : ℕ) → a < 256 → ((a << 16 >> 18) % 64 ≡ a / 4) × ((a << 16 >> 12) % 64 ≡ a % 4 * 16)
one_symbols a ha = omega arith

module _ (bytes : List ℕ) (i : ℕ) (base64 : List ℕ) where
  last_none : drop i bytes ≡ [] → last_group bytes i base64 ≡ some base64
  unfolding last_group
  last_none e = ground (arith, length-rest bytes i e)

  last_one :
      (a : ℕ)
      → drop i bytes ≡ a ∷ []
      → last_group bytes i base64 ≡ pad_two (a << 16) (base64 ++ symbol ((a << 16 >> 18) % 64) ∷ [])
  unfolding last_group
  last_one a e =
      ground
        (arith, length-rest bytes i e, get_elem?-first bytes i e, put_lem base64 (a << 16 >> 18))

  last_two :
      (a b : ℕ)
      → drop i bytes ≡ a ∷ b ∷ []
      → last_group bytes i base64
        ≡ pad_one (a << 16) b (base64 ++ symbol ((a << 16 >> 18) % 64) ∷ [])
  unfolding last_group
  last_two a b e = ground (
    arith,
    length-rest bytes i e,
    get_elem?-first bytes i e,
    get_elem?-rest bytes i e 1,
    put_lem base64 (a << 16 >> 18),
  )

  full_group_none :
      (fuel : ℕ) → length bytes ≤ i + 2 → full_groups (suc fuel) bytes i base64 ≡ some (i, base64)
  unfolding full_groups
  full_group_none fuel h = ground arith

  full_group_some :
      (fuel a b c : ℕ) (rest : List ℕ)
      → drop i bytes ≡ a ∷ b ∷ c ∷ rest
      → full_groups (suc fuel) bytes i base64 ≡ (do
        base64 ← put_four (bit_or (bit_or (a << 16) (b << 8)) c) base64
        full_groups fuel bytes (i + 3) base64)
  unfolding full_groups
  full_group_some fuel a b c rest e = ground (
    arith,
    length-rest bytes i e,
    get_elem?-first bytes i e,
    get_elem?-rest bytes i e 1,
    get_elem?-rest bytes i e 2,
  )

pad_two_lem :
    (n : ℕ) (base64 : List ℕ)
    → pad_two n base64 ≡ some (base64 ++ symbol ((n >> 12) % 64) ∷ padding ∷ padding ∷ [])
unfolding pad_two
pad_two_lem n base64 = simp (put_lem, append_assoc)

pad_one_lem :
    (n b : ℕ) (base64 : List ℕ)
    → pad_one n b base64
      ≡ some (
          base64
          ++ symbol ((bit_or n (b << 8) >> 12) % 64)
            ∷ symbol ((bit_or n (b << 8) >> 6) % 64)
            ∷ padding
            ∷ [])
unfolding pad_one
pad_one_lem n b base64 = simp (put_lem, append_assoc)

abbrev finish : List ℕ → ℕ × List ℕ → Option (List ℕ)
finish bytes (i, base64) = last_group bytes i base64

-- From any index the loop and what follows it append the encoding of the bytes that are left.
encodes_rest :
    (rest bytes : List ℕ) (fuel i : ℕ) (base64 : List ℕ)
    → drop i bytes ≡ rest
    → IsBytes rest
    → length rest < fuel
    → (full_groups fuel bytes i base64 >>= finish bytes) ≡ some (base64 ++ encoding rest)
unfolding encoding
encodes_rest rest bytes zero i base64 e bs enough = absurd (omega arith)
encodes_rest [] bytes (suc fuel) i base64 e bs enough = rw (
  full_group_none bytes i base64 fuel (omega (arith, length-rest bytes i e)),
  last_none bytes i base64 e,
  append-nil,
)
encodes_rest (a ∷ []) bytes (suc fuel) i base64 e bs enough =
    rw
      (
        full_group_none bytes i base64 fuel (omega (arith, length-rest bytes i e)),
        last_one bytes i base64 a e,
        pad_two_lem,
        append_assoc,
      )
      (ground (arith, one_symbols a bs.0))
encodes_rest (a ∷ b ∷ []) bytes (suc fuel) i base64 e bs enough =
    rw
      (
        full_group_none bytes i base64 fuel (omega (arith, length-rest bytes i e)),
        last_two bytes i base64 a b e,
        pad_one_lem,
        append_assoc,
      )
      (ground (arith, one_symbols a bs.0, pair_symbols a b bs.0 bs.1.0))
encodes_rest (a ∷ b ∷ c ∷ rest) bytes (suc fuel) i base64 e bs enough =
    rw
      (
        full_group_some bytes i base64 fuel a b c rest e,
        put_four_lem,
        encodes_rest rest bytes fuel (i + 3) _ (sym (drop-drop i 3 bytes) ∙ ap (drop 3) e) bs.1.1.1
            (omega arith),
        append_assoc,
      )
      (ground (arith, group_symbols a b c bs.0 bs.1.0 bs.1.1.0))

-- For every list of bytes, the index loop and what follows it return the RFC 4648 encoding: no
-- read is out of range, and the loop ends within its fuel.
pub base64_encode-encoding :
    (bytes : List ℕ) → IsBytes bytes → base64_encode bytes ≡ some (encoding bytes)
unfolding base64_encode
base64_encode-encoding bytes bs =
    encodes_rest bytes bytes (length bytes + 1) 0 [] refl bs (omega arith)

-- ===== src/Base64/Decode.antt =====
-- A decoder that reads four symbols at a time, and what the encoder means for whoever decodes.
use spdm_working.Common.{
  ℕ, suc, ◌+◌, ◌*◌, ◌/◌, ◌%◌, ◌<◌, ◌≡◌, refl, List, [], ◌∷◌, ◌++◌, some, true, false, length, arith,
  IsBytes, if◌then◌else◌, ◌==◌, not, ◌&&◌,
}
use spdm_working.Common.Table.{holds_below, holds_below_at}
use spdm_working.Base64.{base64_encode}
use spdm_working.Base64.Loop.{base64_encode-encoding}
use spdm_working.Base64.Reference.{alphabet, symbol, encoding, padding}

position : ℕ → List ℕ → ℕ
position c [] = 0
position c (x ∷ xs) = if x == c then 0 else suc (position c xs)

-- The value of a symbol.
value : ℕ → ℕ
unfolding position
value c = position c alphabet

-- The bytes of four symbols, of which the last two may be padding.
group : ℕ → ℕ → ℕ → ℕ → List ℕ
group p q r s =
    if r == padding
    then (value p * 4 + value q / 16) ∷ []
    else if s == padding
    then (value p * 4 + value q / 16) ∷ (value q % 16 * 16 + value r / 4) ∷ []
    else (value p * 4 + value q / 16)
      ∷ (value q % 16 * 16 + value r / 4)
      ∷ (value r % 4 * 64 + value s)
      ∷ []

pub decoding : List ℕ → List ℕ
unfolding group
decoding (p ∷ q ∷ r ∷ s ∷ rest) = group p q r s ++ decoding rest
decoding _ = []

symbols_checked : holds_below 64 (λ v. (value (symbol v) == v) && not (symbol v == padding)) ≡ true
unfolding holds_below value symbol
symbols_checked = refl

symbol_lem : (v : ℕ) → v < 64 → (value (symbol v) ≡ v) × ((symbol v == padding) ≡ false)
symbol_lem v h = ground (arith, holds_below_at 64 _ v symbols_checked h)

decoding-encoding : (bytes : List ℕ) → IsBytes bytes → decoding (encoding bytes) ≡ bytes
unfolding decoding group encoding
decoding-encoding [] bs = refl
decoding-encoding (a ∷ []) bs = ground (arith, symbol_lem (a / 4), symbol_lem (a % 4 * 16))
decoding-encoding (a ∷ b ∷ []) bs =
    ground (arith, symbol_lem (a / 4), symbol_lem (a % 4 * 16 + b / 16), symbol_lem (b % 16 * 4))
decoding-encoding (a ∷ b ∷ c ∷ rest) bs = ground (
  arith,
  symbol_lem (a / 4),
  symbol_lem (a % 4 * 16 + b / 16),
  symbol_lem (b % 16 * 4 + c / 64),
  symbol_lem (c % 64),
  decoding-encoding rest bs.1.1.1,
)

length-encoding : (bytes : List ℕ) → length (encoding bytes) ≡ (length bytes + 2) / 3 * 4
unfolding encoding
length-encoding [] = omega arith
length-encoding (a ∷ []) = omega arith
length-encoding (a ∷ b ∷ []) = omega arith
length-encoding (a ∷ b ∷ c ∷ rest) = omega (arith, length-encoding rest)

-- For every list of bytes, the encoder returns a text that a decoder of four symbols at a time takes
-- back to the bytes; it has four symbols for each three bytes begun.
pub decoding-base64_encode :
    (bytes : List ℕ)
    → IsBytes bytes
    → (base64 : List ℕ) × (base64_encode bytes ≡ some base64)
      × (decoding base64 ≡ bytes)
      × (length base64 ≡ (length bytes + 2) / 3 * 4)
decoding-base64_encode bytes bs = (
  encoding bytes,
  base64_encode-encoding bytes bs,
  decoding-encoding bytes bs,
  length-encoding bytes,
)

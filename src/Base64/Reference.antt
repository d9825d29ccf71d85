-- ===== src/Base64/Reference.antt =====
-- Base64 as RFC 4648 describes it: six bits at a time, by arithmetic on each group of bytes.
use mathlib.Core.Option
use spdm_working.Common.{ℕ, ◌+◌, ◌*◌, ◌/◌, ◌%◌, List, [], ◌∷◌, get_elem?}
use spdm_working.Common.Text.{codes}

abbrev pub alphabet : List ℕ
alphabet = codes "ABCDEFGHIJKLMNOPQRSTUVWXYZabcdefghijklmnopqrstuvwxyz0123456789+/"

abbrev pub padding : ℕ
padding = b'='

-- The symbol of a value below 64.
unfoldable pub symbol : ℕ → ℕ
symbol v = Option.get_or (get_elem? alphabet v) padding

unfoldable pub encoding : List ℕ → List ℕ
encoding [] = []
encoding (a ∷ []) = symbol (a / 4) ∷ symbol (a % 4 * 16) ∷ padding ∷ padding ∷ []
encoding (a ∷ b ∷ []) =
    symbol (a / 4) ∷ symbol (a % 4 * 16 + b / 16) ∷ symbol (b % 16 * 4) ∷ padding ∷ []
encoding (a ∷ b ∷ c ∷ rest) =
    symbol (a / 4)
    ∷ symbol (a % 4 * 16 + b / 16)
    ∷ symbol (b % 16 * 4 + c / 64)
    ∷ symbol (c % 64)
    ∷ encoding rest

-- ===== src/Base64.antt =====
-- `base64Encode` of requester/utils.cpp. The same encoder is written out once more inside
-- `derCertsToPem` of requester/component_integrity_dbus.cpp, statement for statement.
pub mod Reference
pub mod Loop
pub mod Decode
mod Examples
use spdm_working.Common.{
  ℕ, zero, suc, ◌+◌, ◌<<◌, ◌>>◌, bit_and, bit_or, List, [], ◌∷◌, ◌++◌, Option, none, some, true,
  false, ltb, length, get_elem?,
}
use spdm_working.Common.Partial.{◌>>=◌}
use spdm_working.Common.Text.{codes}

abbrev pub b64_table : List ℕ
b64_table = codes "ABCDEFGHIJKLMNOPQRSTUVWXYZabcdefghijklmnopqrstuvwxyz0123456789+/"

-- `base64 += b64_table[k & 63]`; `none` is a read out of range.
unfoldable pub put : List ℕ → ℕ → Option (List ℕ)
put base64 k = do symbol ← get_elem? b64_table (bit_and k 63); some (base64 ++ symbol ∷ [])

-- The four statements of the loop's body that append symbols.
unfoldable pub put_four : ℕ → List ℕ → Option (List ℕ)
unfolding put
put_four n base64 = do
  base64 ← put base64 (n >> 18)
  base64 ← put base64 (n >> 12)
  base64 ← put base64 (n >> 6)
  put base64 n

-- The `for` loop, with fuel: `i` and the text where it ends.
unfoldable pub full_groups : ℕ → List ℕ → ℕ → List ℕ → Option (ℕ × List ℕ)
unfolding put_four
full_groups zero bytes i base64 = none
full_groups (suc fuel) bytes i base64 = elim (ltb (i + 2) (length bytes)) [
  | false ↦ some (i, base64)
  | true ↦ do
    a ← get_elem? bytes i
    b ← get_elem? bytes (i + 1)
    c ← get_elem? bytes (i + 2)
    let n = bit_or (bit_or (a << 16) (b << 8)) c
    base64 ← put_four n base64
    full_groups fuel bytes (i + 3) base64
]

-- One byte is left: two symbols and two signs of padding.
unfoldable pub pad_two : ℕ → List ℕ → Option (List ℕ)
unfolding put
pad_two n base64 = do base64 ← put base64 (n >> 12); some (base64 ++ codes "==")

-- Two bytes are left: three symbols and one sign of padding.
unfoldable pub pad_one : ℕ → ℕ → List ℕ → Option (List ℕ)
unfolding put
pad_one n b base64 = do
  let n = bit_or n (b << 8)
  base64 ← put base64 (n >> 12)
  base64 ← put base64 (n >> 6)
  some (base64 ++ codes "=")

-- What follows the loop: one or two bytes that are left, and the padding.
unfoldable pub last_group : List ℕ → ℕ → List ℕ → Option (List ℕ)
unfolding put pad_one pad_two
last_group bytes i base64 = elim (ltb i (length bytes)) [
  | false ↦ some base64
  | true ↦ do
    a ← get_elem? bytes i
    let n = a << 16
    base64 ← put base64 (n >> 18)
    elim (ltb (i + 1) (length bytes)) [
      | false ↦ pad_two n base64
      | true ↦ get_elem? bytes (i + 1) >>= λ b. pad_one n b base64
    ]
]

unfoldable pub base64_encode : List ℕ → Option (List ℕ)
unfolding full_groups last_group
base64_encode bytes = do
  (i, base64) ← full_groups (length bytes + 1) bytes 0 []
  last_group bytes i base64

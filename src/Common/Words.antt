-- ===== src/Common/Words.antt =====
-- Casts of C++ to the fixed widths, and its shifts.
use Prim.Native.Nat.{ℕ, zero, suc, ◌*◌, ◌/◌, ◌%◌, ◌^◌, ◌<◌}
use mathlib.Core.List.{List, [], ◌∷◌, ◌++◌}
use spdm_working.Common.Lists.{All, All-append, drop}

abbrev pub u8 : ℕ → ℕ
u8 n = n % 2 ^ 8

abbrev pub u16 : ℕ → ℕ
u16 n = n % 2 ^ 16

abbrev pub u32 : ℕ → ℕ
u32 n = n % 2 ^ 32

abbrev pub u64 : ℕ → ℕ
u64 n = n % 2 ^ 64

infixl 75 ◌<<◌ ◌>>◌
abbrev pub ◌<<◌ : ℕ → ℕ → ℕ
x << k = x * 2 ^ k

abbrev pub ◌>>◌ : ℕ → ℕ → ℕ
x >> k = x / 2 ^ k

abbrev pub IsByte : ℕ → Type 0
IsByte b = b < 256

abbrev pub IsBytes : List ℕ → Type 0
IsBytes bs = All IsByte bs

pub IsBytes-append : (xs ys : List ℕ) → IsBytes xs → IsBytes ys → IsBytes (xs ++ ys)
IsBytes-append = All-append IsByte

pub drop-IsBytes : (n : ℕ) (bytes : List ℕ) → IsBytes bytes → IsBytes (drop n bytes)
drop-IsBytes zero bytes bs = bs
drop-IsBytes (suc n) [] bs = tt
drop-IsBytes (suc n) (b ∷ bytes) bs = drop-IsBytes n bytes bs.1

pub IsBytes-left : (xs ys : List ℕ) → IsBytes (xs ++ ys) → IsBytes xs
IsBytes-left [] ys bs = tt
IsBytes-left (x ∷ xs) ys bs = (bs.0, IsBytes-left xs ys bs.1)

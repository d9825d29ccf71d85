-- ===== src/Common/Bits.antt =====
-- What `|` of disjoint fields and `&` with a mask of low ones mean as arithmetic.
use Prim.Native.Nat.{
  ℕ, zero, suc, ◌+◌, ◌-◌, ◌*◌, ◌/◌, ◌%◌, ◌^◌, ◌≤◌, ◌<◌, min, max, bit_and, bit_or, digits,
  bit_and-bitwise, bit_or-bitwise,
}
use mathlib.Core.Path.{◌≡◌, refl, ap}
use native.Mathlib.Nat.{pow-suc, one-le-pow}
use native.Mathlib.Omega.{arith}

-- The digit recursion does not depend on its fuel, once the fuel is at least the number.
module _ (rest : ℕ → ℕ) (op : ℕ → ℕ → ℕ) where
  digits_enough : (f g x y : ℕ) → x ≤ f → x ≤ g → digits rest op f x y ≡ digits rest op g x y
  digits_enough f g zero y p q = both_zero f g
    where
      both_zero : (m n : ℕ) → digits rest op m zero y ≡ digits rest op n zero y
      both_zero zero zero = refl
      both_zero zero (suc n) = refl
      both_zero (suc m) zero = refl
      both_zero (suc m) (suc n) = refl
  digits_enough zero g (suc x) y p q = absurd (omega arith)
  digits_enough (suc f) zero (suc x) y p q = absurd (omega arith)
  digits_enough (suc f) (suc g) (suc x) y p q =
      omega (arith, digits_enough f g (suc x / 2) (y / 2) (omega arith) (omega arith))

or_zero : (y : ℕ) → bit_or 0 y ≡ y
or_zero y = bit_or-bitwise 0 y

and_zero : (y : ℕ) → bit_and 0 y ≡ 0
and_zero y = bit_and-bitwise 0 y

-- The lowest binary digit split off.
or_digit : (x y : ℕ) → bit_or x y ≡ bit_or (x / 2) (y / 2) * 2 + max (x % 2) (y % 2)
or_digit zero y = omega (arith, or_zero y, or_zero (y / 2))
or_digit (suc x) y = omega (
  arith,
  bit_or-bitwise (suc x) y,
  bit_or-bitwise (suc x / 2) (y / 2),
  digits_enough (λ r. r) max x (suc x / 2) (suc x / 2) (y / 2) (omega arith) (omega arith),
)

and_digit : (x y : ℕ) → bit_and x y ≡ bit_and (x / 2) (y / 2) * 2 + min (x % 2) (y % 2)
and_digit zero y = omega (arith, and_zero y, and_zero (y / 2))
and_digit (suc x) y = omega (
  arith,
  bit_and-bitwise (suc x) y,
  bit_and-bitwise (suc x / 2) (y / 2),
  digits_enough (λ _. zero) min x (suc x / 2) (suc x / 2) (y / 2) (omega arith) (omega arith),
)

or_nothing_below : (n x : ℕ) → x ≤ n → bit_or x 0 ≡ x
or_nothing_below n zero h = or_zero 0
or_nothing_below zero (suc x) h = absurd (omega arith)
or_nothing_below (suc n) (suc x) h =
    omega (arith, or_digit (suc x) 0, or_nothing_below n (suc x / 2) (omega arith))

and_nothing_below : (n x : ℕ) → x ≤ n → bit_and x 0 ≡ 0
and_nothing_below n zero h = and_zero 0
and_nothing_below zero (suc x) h = absurd (omega arith)
and_nothing_below (suc n) (suc x) h =
    omega (arith, and_digit (suc x) 0, and_nothing_below n (suc x / 2) (omega arith))

pub bit_and-zero : (x : ℕ) → bit_and x 0 ≡ 0
bit_and-zero x = and_nothing_below x x (omega arith)

double_power : (a k : ℕ) → a * 2 ^ suc k ≡ a * 2 ^ k * 2
double_power a k = omega (arith, ap (λ (t : ℕ). a * t) (pow-suc 2 k))

-- `(high << k) | low` is a sum where `low` has at most `k` bits.
pub bit_or_fields : (k high low : ℕ) → low < 2 ^ k → bit_or (high * 2 ^ k) low ≡ high * 2 ^ k + low
bit_or_fields zero high low h = ground (arith, or_nothing_below high high)
bit_or_fields (suc k) high low h = ground (
  arith,
  double_power high k,
  pow-suc 2 k,
  or_digit (high * 2 ^ suc k) low,
  bit_or_fields k high (low / 2),
)

mask_split : (k q r : ℕ) → r < 2 ^ k → bit_and (q * 2 ^ k + r) (2 ^ k - 1) ≡ r
mask_split zero q r h = ground (arith, and_nothing_below (q * 1 + r) (q * 1 + r))
mask_split (suc k) q r h = ground (
  arith,
  double_power q k,
  pow-suc 2 k,
  one-le-pow k 2,
  and_digit (q * 2 ^ suc k + r) (2 ^ suc k - 1),
  mask_split k q (r / 2),
)

-- `x & (2 ^ k - 1)` is the remainder by `2 ^ k`.
pub bit_and_low : (k x : ℕ) → bit_and x (2 ^ k - 1) ≡ x % 2 ^ k
bit_and_low k x = ground (arith, one-le-pow k 2, mask_split k (x / 2 ^ k) (x % 2 ^ k))

-- ===== src/Common/Returns.antt =====
-- Total correctness of what may run out of fuel or read out of range: there is a result, and `P`
-- holds of it.
use mathlib.Core.Path.{◌≡◌, subst}
use mathlib.Core.Option.{Option, none, some, some-injective}
use spdm_working.Common.Partial.{◌>>=◌}

abbrev pub Returns {ℓ} : {A : Type ℓ} → (A → Type 0) → Option A → Type 0
Returns P none = ⊥
Returns P (some a) = P a

module _ {ℓ} {A : Type ℓ} where
  pub Returns-at : (P : A → Type 0) (o : Option A) {a : A} → Returns P o → o ≡ some a → P a
  Returns-at P none r e = absurd r
  Returns-at P (some b) {a} r e = subst P (some-injective b a e) r

  pub Returns-imp :
      (P Q : A → Type 0) (o : Option A) → Returns P o → ((a : A) → P a → Q a) → Returns Q o
  Returns-imp P Q none r f = r
  Returns-imp P Q (some a) r f = f a r

  pub Returns-bind {κ} :
      {B : Type κ} (P : A → Type 0) (Q : B → Type 0) (m : Option A) (f : A → Option B)
      → Returns P m
      → ((a : A) → P a → Returns Q (f a))
      → Returns Q (m >>= f)
  Returns-bind P Q none f r k = absurd r
  Returns-bind P Q (some a) f r k = k a r

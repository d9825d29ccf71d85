-- ===== src/Exceptions.antt =====
-- C++ code that returns or throws, with the classes of exceptions that the program throws.
pub mod Action
use spdm_working.Common.{◌≡◌, refl, String}

pub data Exception : Type 0 where
  invalid_argument bad_function_call : Exception
  runtime_error : String → Exception

pub data Result {ℓ} (A : Type ℓ) : Type ℓ where
  ok : A → Result A
  threw : Exception → Result A
  -- A loop of the model ran out of fuel, or read out of range.
  unfinished : Result A

infixl 5 ◌>>=◌ ◌>>◌
abbrev pub ◌>>=◌ {ℓ κ} : {A : Type ℓ} {B : Type κ} → Result A → (A → Result B) → Result B
ok a >>= f = f a
threw e >>= f = threw e
unfinished >>= f = unfinished

abbrev pub ◌>>◌ {ℓ} : {B : Type ℓ} → Result (Unit {0}) → Result B → Result B
m >> k = m >>= λ _. k

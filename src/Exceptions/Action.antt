-- ===== src/Exceptions/Action.antt =====
-- Code that changes a state and returns or throws: what it did to the state before it threw stays.
use spdm_working.Common.{Option, none, some}
use spdm_working.Exceptions.{Exception, Result, ok, threw, unfinished}

abbrev pub Action : Type 0 → Type 0 → Type 0
Action S A = S → Result A × S

abbrev pub after : {S A B : Type 0} → Result A × S → (A → Action S B) → Result B × S
after (ok a, s) f = f a s
after (threw e, s) f = (threw e, s)
after (unfinished, s) f = (unfinished, s)

infixl 5 ◌>>=◌ ◌>>◌
abbrev pub ◌>>=◌ : {S A B : Type 0} → Action S A → (A → Action S B) → Action S B
(m >>= f) s = after (m s) f

abbrev pub ◌>>◌ : {S B : Type 0} → Action S (Unit {0}) → Action S B → Action S B
m >> k = m >>= λ _. k

abbrev pub return : {S A : Type 0} → A → Action S A
return a s = (ok a, s)

abbrev pub throw : {S A : Type 0} → Exception → Action S A
throw e s = (threw e, s)

-- A result that needs no state.
abbrev pub lift : {S A : Type 0} → Result A → Action S A
lift r s = (r, s)

abbrev pub from_option : {S A : Type 0} → Option A → Action S A
from_option none s = (unfinished, s)
from_option (some a) s = (ok a, s)

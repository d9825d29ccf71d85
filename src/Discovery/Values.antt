-- ===== src/Discovery/Values.antt =====
-- Texts compared, and maps looked up.
use spdm_working.Common.{
  ℕ, ◌==◌, ==_iff, ◌≡◌, refl, ap₂, List, [], ◌∷◌, none, some, Bool, true, false, ◌&&◌,
}
use spdm_working.Discovery.{same_text, find}

both : (p q : Bool) → (p && q) ≡ true → (p ≡ true) × (q ≡ true)
both true true h = (refl, refl)
both true false h = absurd cc
both false q h = absurd cc

pub same_text→≡ : (s t : List ℕ) → same_text s t ≡ true → s ≡ t
unfolding same_text
same_text→≡ [] [] h = refl
same_text→≡ [] (b ∷ t) h = absurd cc
same_text→≡ (a ∷ s) [] h = absurd cc
same_text→≡ (a ∷ s) (b ∷ t) h =
    let (e, f) = both (a == b) (same_text s t) h in
    ap₂ (λ x y. x ∷ y) ((==_iff a b).0 e) (same_text→≡ s t f)

-- No key stands twice.
abbrev pub IsMap : {A : Type 0} → List (List ℕ × A) → Type 0
IsMap [] = Unit
IsMap ((k, a) ∷ rest) = (find k rest ≡ none) × IsMap rest

pub find-here :
    {A : Type 0} (key k : List ℕ) (a : A) (rest : List (List ℕ × A))
    → same_text k key ≡ true
    → find key ((k, a) ∷ rest) ≡ some a
unfolding find
find-here key k a rest e = rw (find, e) refl

pub find-later :
    {A : Type 0} (key k : List ℕ) (a : A) (rest : List (List ℕ × A))
    → same_text k key ≡ false
    → find key ((k, a) ∷ rest) ≡ find key rest
unfolding find
find-later key k a rest e = rw (find, e) refl

-- ===== src/Discovery/Select.antt =====
-- A list made from another by keeping what each element tells of, if anything.
use spdm_working.Common.{
  ◌≡◌, List, [], ◌∷◌, Option, none, some, refl, Bool, true, false, if◌then◌else◌,
}
use spdm_working.Discovery.{ResponderInfo, emplaced}

-- In the same order: an element for each that is related to one, and none for the others.
pub data Selects {A B : Type 0} (P : A → B → Type 0) : List A → List B → Type 0 where
  done : Selects P [] []
  kept :
      {a : A} {b : B} {xs : List A} {ys : List B}
      → P a b
      → Selects P xs ys
      → Selects P (a ∷ xs) (b ∷ ys)
  dropped :
      {a : A} {xs : List A} {ys : List B}
      → ((b : B) → P a b → ⊥)
      → Selects P xs ys
      → Selects P (a ∷ xs) ys

-- An element's device is found by a function that agrees with the relation.
pub emplaced-Selects :
    {A : Type 0} {P : A → ResponderInfo → Type 0} {a : A} {xs : List A} {ys : List ResponderInfo}
    (found : Option ResponderInfo)
    → ((d : ResponderInfo) → found ≡ some d → P a d)
    → ((d : ResponderInfo) → P a d → found ≡ some d)
    → Selects P xs ys
    → Selects P (a ∷ xs) (emplaced found ys)
emplaced-Selects none sound complete rest = dropped (λ d h. let e = complete d h in absurd cc) rest
emplaced-Selects (some d) sound complete rest = kept (sound d refl) rest

-- A guard that does not hold.
pub skipped :
    {r : Option ResponderInfo} {d : ResponderInfo} (b : Bool)
    → b ≡ false
    → r ≡ some d
    → (if b then none else r) ≡ some d
skipped true f e = absurd cc
skipped false f e = e

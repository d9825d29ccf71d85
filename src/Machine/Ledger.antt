-- ===== src/Machine/Ledger.antt =====
-- What is given back leaves the account, and only that.
use mathlib.Core.List.{Memᴰ}
use mathlib.Core.List.Memᴰ.{head, tail}
use spdm_working.Common.{
  ℕ, ◌≡◌, ◌==◌, refl, ap, sym, subst, ◌∙◌, List, [], ◌∷◌, ◌++◌, Option, none, some, true, false,
  if◌then◌else◌, Bool-cases, inl, inr, arith,
}
use spdm_working.Machine.{Machine, erase, gained, close, free}

pub erase-first : (x : ℕ) (xs : List ℕ) → erase x (x ∷ xs) ≡ xs
unfolding erase
erase-first x xs = ground arith

-- Blocks were added one by one, each of which was not held before.
pub data Grown (blocks : List ℕ) : List ℕ → Type 0 where
  same : Grown blocks blocks
  block : {p : ℕ} {now : List ℕ} → Grown blocks now → ¬ Memᴰ p now → Grown blocks (p ∷ now)

pub Grown-trans :
    {before now after : List ℕ} → Grown before now → Grown now after → Grown before after
Grown-trans g same = g
Grown-trans g (block h fresh) = block (Grown-trans g h) fresh

erase-later : (x p : ℕ) (xs : List ℕ) → Memᴰ x xs → ¬ Memᴰ p xs → erase x (p ∷ xs) ≡ p ∷ erase x xs
unfolding erase
erase-later x p xs there fresh = elim (Bool-cases (p == x)) [
  | inl e ↦
      let equal : p ≡ x = ground (arith, e) in
      absurd (fresh (subst (λ y. Memᴰ y xs) (sym equal) there))
  | inr e ↦ rw e refl
]

erase-Mem : (x p : ℕ) (xs : List ℕ) → Memᴰ p (erase x xs) → Memᴰ p xs
unfolding erase
erase-Mem x p [] d = d
erase-Mem x p (y ∷ ys) d = elim (Bool-cases (y == x)) [
  | inl e ↦ tail (subst (Memᴰ p) (removed e) d)
  | inr e ↦ later (subst (Memᴰ p) (kept e) d) (erase-Mem x p ys)
]
  where
    removed : (y == x) ≡ true → (if y == x then ys else y ∷ erase x ys) ≡ ys
    removed e = rw e refl

    kept : (y == x) ≡ false → (if y == x then ys else y ∷ erase x ys) ≡ y ∷ erase x ys
    kept e = rw e refl

    later : Memᴰ p (y ∷ erase x ys) → (Memᴰ p (erase x ys) → Memᴰ p ys) → Memᴰ p (y ∷ ys)
    later (head q) k = head q
    later (tail d') k = tail (k d')

-- The two blocks that were held first can be given back; what was added since stays.
pub Grown-two :
    (x y : ℕ) (others : List ℕ) {now : List ℕ}
    → Grown (x ∷ y ∷ others) now
    → Memᴰ x now
      × Memᴰ y (erase x now)
      × (added : List ℕ) × (now ≡ added ++ x ∷ y ∷ others)
      × (erase y (erase x now) ≡ added ++ others)
Grown-two x y others same = (
  head refl,
  subst (Memᴰ y) (sym (erase-first x (y ∷ others))) (head refl),
  [],
  refl,
  ap (erase y) (erase-first x (y ∷ others)) ∙ erase-first y others,
)
Grown-two x y others (block {p} {now} g fresh) =
    let (x_there, y_there, added, now_is, left) = Grown-two x y others g in
    let x_later = erase-later x p now x_there fresh in
    let y_later = erase-later y p (erase x now) y_there (λ d. fresh (erase-Mem x p now d)) in
    (
      tail x_there,
      subst (Memᴰ y) (sym x_later) (tail y_there),
      p ∷ added,
      ap (◌∷◌ p) now_is,
      ap (erase y) x_later ∙ (y_later ∙ ap (◌∷◌ p) left),
    )

module _ {D : Type 0} where
  pub free-blocks :
      (p : Option ℕ) (m : Machine D) (others : List ℕ)
      → m.blocks ≡ gained p others
      → (free p m).blocks ≡ others
  unfolding free
  free-blocks none m others e = e
  free-blocks (some p) m others e = rw e (erase-first p others)

  pub free-descriptors : (p : Option ℕ) (m : Machine D) → (free p m).descriptors ≡ m.descriptors
  unfolding free
  free-descriptors none m = refl
  free-descriptors (some p) m = refl

  pub close-descriptors :
      (fd : ℕ) (m : Machine D) (others : List ℕ)
      → m.descriptors ≡ fd ∷ others
      → (close fd m).descriptors ≡ others
  unfolding close
  close-descriptors fd m others e = rw e (erase-first fd others)

  pub close-blocks : (fd : ℕ) (m : Machine D) → (close fd m).blocks ≡ m.blocks
  unfolding close
  close-blocks fd m = refl

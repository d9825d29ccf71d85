-- ===== src/Integrity/Indices/Decision.antt =====
-- Which requests the validation lets through.
use spdm_working.Common.{
  ℕ, ◌≤◌, ◌≡◌, ◌≢◌, ◌⊎◌, inl, inr, refl, List, [], ◌∷◌, false, All, length, arith, Bool-cases, ◌==◌,
}
use spdm_working.Exceptions.{Result, ok, threw, invalid_argument}
use spdm_working.Integrity.Indices.{
  Flags, mark, mark_all, no_flags, validate_special_value_combinations, validate_regular_indices,
  contains, set_of, check_for_duplicate_indices, validate_combination, validate_measurement_indices,
}

abbrev pub IsRegular : ℕ → Type 0
IsRegular idx = (1 ≤ idx) × (idx ≤ 254)

abbrev pub Distinct : List ℕ → Type 0
Distinct [] = Unit
Distinct (x ∷ xs) = All (λ y. x ≢ y) xs × Distinct xs

-- A check that decides `P`.
abbrev pub Decides : Type 0 → Result (Unit {0}) → Type 0
Decides P r = ((r ≡ ok tt) × P) ⊎ ((r ≡ threw invalid_argument) × ¬ P)

-- All measurements, the count of them, or distinct regular indices.
abbrev pub IsAcceptable : List ℕ → Type 0
IsAcceptable indices =
    (indices ≡ [])
    ⊎ (indices ≡ 0 ∷ [])
    ⊎ (indices ≡ 255 ∷ [])
    ⊎ (All IsRegular indices × Distinct indices)

mark_all-regular :
    (indices : List ℕ) (f : Flags)
    → All IsRegular indices
    → f.has_zero ≡ false
    → f.has_255 ≡ false
    → ((mark_all indices f).has_zero ≡ false) × ((mark_all indices f).has_255 ≡ false)
unfolding mark_all
mark_all-regular [] f all z m = (z, m)
mark_all-regular (idx ∷ rest) f all z m =
    mark_all-regular rest (mark idx f) all.1 (ground arith) (ground arith)

special_passes :
    (indices : List ℕ) → All IsRegular indices → validate_special_value_combinations indices ≡ ok tt
unfolding validate_special_value_combinations
special_passes indices all =
    let passed = mark_all-regular indices no_flags all refl refl in ground arith

special_cases :
    (indices : List ℕ)
    → (validate_special_value_combinations indices ≡ ok tt)
      ⊎ (validate_special_value_combinations indices ≡ threw invalid_argument)
unfolding validate_special_value_combinations
special_cases indices = ground arith

IsRegular-Decides :
    (indices : List ℕ) → Decides (All IsRegular indices) (validate_regular_indices indices)
unfolding validate_regular_indices
IsRegular-Decides [] = inl (refl, tt)
IsRegular-Decides (idx ∷ rest) = ground (arith, IsRegular-Decides rest)

contains-set_of : (x : ℕ) (xs : List ℕ) → contains x (set_of xs) ≡ contains x xs
unfolding set_of
contains-set_of x [] = refl
contains-set_of x (y ∷ ys) = ground (arith, contains-set_of x ys, contains-set_of y ys)

not_contains : (x : ℕ) (xs : List ℕ) → contains x xs ≡ false → All (λ y. x ≢ y) xs
unfolding contains
not_contains x [] e = tt
not_contains x (y ∷ ys) e = ground (arith, not_contains x ys)

All-contains : (x : ℕ) (xs : List ℕ) → All (λ y. x ≢ y) xs → contains x xs ≡ false
unfolding contains
All-contains x [] a = refl
All-contains x (y ∷ ys) a = ground (arith, All-contains x ys a.1)

length-set_of : (xs : List ℕ) → length (set_of xs) ≤ length xs
unfolding set_of
length-set_of [] = omega arith
length-set_of (x ∷ xs) = ground (arith, length-set_of xs)

set_of-Distinct : (xs : List ℕ) → Distinct xs → length (set_of xs) ≡ length xs
unfolding set_of
set_of-Distinct [] d = refl
set_of-Distinct (x ∷ xs) d =
    ground (arith, contains-set_of x xs, All-contains x xs d.0, set_of-Distinct xs d.1)

Distinct-set_of : (xs : List ℕ) → length (set_of xs) ≡ length xs → Distinct xs
unfolding set_of
Distinct-set_of [] e = tt
Distinct-set_of (x ∷ xs) e = elim (Bool-cases (contains x xs)) [
  | inl old ↦ absurd (ground (arith, contains-set_of x xs, length-set_of xs))
  | inr new ↦ (not_contains x xs new, Distinct-set_of xs (ground (arith, contains-set_of x xs)))
]

duplicates-Decides :
    (indices : List ℕ) → Decides (Distinct indices) (check_for_duplicate_indices indices)
unfolding check_for_duplicate_indices
duplicates-Decides indices = elim (Bool-cases (length (set_of indices) == length indices)) [
  | inl same ↦ inl (ground arith, Distinct-set_of indices (ground arith))
  | inr other ↦ inr (ground arith, λ d. absurd (ground (arith, set_of-Distinct indices d)))
]

combination-Decides :
    (indices : List ℕ)
    → Decides (All IsRegular indices × Distinct indices) (validate_combination indices)
unfolding validate_combination
combination-Decides indices = elim (IsRegular-Decides indices) [
  | inl ok_regular ↦ elim (duplicates-Decides indices) [
    | inl ok_set ↦ inl (
      (rw (special_passes indices ok_regular.1, ok_regular.0, ok_set.0)),
      (ok_regular.1, ok_set.1),
    )
    | inr bad_set ↦ inr (
      (rw (special_passes indices ok_regular.1, ok_regular.0, bad_set.0)),
      λ both. bad_set.1 both.1,
    )
  ]
  | inr bad ↦ elim (special_cases indices) [
    | inl passed ↦ inr ((rw (passed, bad.0)), λ both. bad.1 both.0)
    | inr failed ↦ inr ((rw failed), λ both. bad.1 both.0)
  ]
]

-- The validation returns for the acceptable requests, and throws `InvalidArgument` for all others.
pub validate_measurement_indices-Decides :
    (indices : List ℕ) → Decides (IsAcceptable indices) (validate_measurement_indices indices)
unfolding validate_measurement_indices
validate_measurement_indices-Decides [] = inl (refl, inl refl)
validate_measurement_indices-Decides (idx ∷ []) =
    let below = combination-Decides (idx ∷ []) in ground (arith, below)
validate_measurement_indices-Decides (idx ∷ next ∷ rest) =
    let below = combination-Decides (idx ∷ next ∷ rest) in ground (arith, below)

-- ===== src/Integrity/Indices.antt =====
-- The validation of measurement indices. Each check returns or throws `InvalidArgument`.
pub mod Decision
use spdm_working.Common.{
  ℕ, List, [], ◌∷◌, Bool, true, false, ◌&&◌, ◌||◌, not, ltb, leb, ◌==◌, if◌then◌else◌, length,
}
use spdm_working.Exceptions.{Result, ok, threw, invalid_argument, ◌>>◌}

-- The flags of the first loop.
pub record Flags : Type 0 where
  pub has_zero : Bool
  pub has_255 : Bool
  pub has_regular_indices : Bool

unfoldable pub mark : ℕ → Flags → Flags
mark idx f =
    if idx == 0
    then record f { has_zero = true }
    else if idx == 255
    then record f { has_255 = true }
    else if leb 1 idx && leb idx 254
    then record f { has_regular_indices = true }
    else f

unfoldable pub mark_all : List ℕ → Flags → Flags
unfolding mark
mark_all [] f = f
mark_all (idx ∷ rest) f = mark_all rest (mark idx f)

abbrev pub no_flags : Flags
no_flags = record { has_zero = false; has_255 = false; has_regular_indices = false }

unfoldable pub validate_special_value_combinations : List ℕ → Result (Unit {0})
unfolding mark_all
validate_special_value_combinations indices =
    let f = mark_all indices no_flags in
    if f.has_zero && f.has_255
    then threw invalid_argument
    else if f.has_zero && f.has_regular_indices
    then threw invalid_argument
    else if f.has_255 && f.has_regular_indices
    then threw invalid_argument
    else ok tt

unfoldable pub validate_regular_indices : List ℕ → Result (Unit {0})
validate_regular_indices [] = ok tt
validate_regular_indices (idx ∷ rest) =
    if ltb idx 1 || ltb 254 idx then threw invalid_argument else validate_regular_indices rest

-- A `std::set` as a list without repetitions: only its size is read.
unfoldable pub contains : ℕ → List ℕ → Bool
contains x [] = false
contains x (y ∷ ys) = x == y || contains x ys

unfoldable pub set_of : List ℕ → List ℕ
unfolding contains
set_of [] = []
set_of (x ∷ xs) = let rest = set_of xs in if contains x rest then rest else x ∷ rest

unfoldable pub check_for_duplicate_indices : List ℕ → Result (Unit {0})
unfolding set_of
check_for_duplicate_indices indices =
    if not (length (set_of indices) == length indices) then threw invalid_argument else ok tt

-- What follows the special cases.
unfoldable pub validate_combination : List ℕ → Result (Unit {0})
validate_combination indices = do
  validate_special_value_combinations indices
  validate_regular_indices indices
  check_for_duplicate_indices indices

unfoldable pub validate_measurement_indices : List ℕ → Result (Unit {0})
unfolding validate_combination
validate_measurement_indices [] = ok tt
validate_measurement_indices (idx ∷ []) =
    if idx == 0 then ok tt else if idx == 255 then ok tt else validate_combination (idx ∷ [])
validate_measurement_indices (idx ∷ next ∷ rest) = validate_combination (idx ∷ next ∷ rest)

-- ===== src/Certificate/Usage.antt =====
-- Which names of key usages are shown.
use spdm_working.Common.{ℕ, suc, ◌≡◌, refl, List, [], ◌∷◌, Bool, true, false, if◌then◌else◌}
use spdm_working.Discovery.Select.{Selects, done, kept, dropped}
use spdm_working.Certificate.{OpenSsl, usage_strings_from}

-- The names with their bits, from the bit `i` on.
abbrev pub numbered : ℕ → List (List ℕ) → List (ℕ × List ℕ)
numbered i [] = []
numbered i (name ∷ names) = (i, name) ∷ numbered (suc i) names

module _ (openssl : OpenSsl) (usage : openssl.BitString) where
  -- The name of a bit that is set.
  abbrev pub NamesBit : ℕ × List ℕ → List ℕ → Type 0
  NamesBit (i, name) shown = (openssl.get_bit usage i ≡ true) × (shown ≡ name)

  step-Selects :
      (i : ℕ) (name : List ℕ) (bits : List (ℕ × List ℕ)) (later : List (List ℕ)) (b : Bool)
      → openssl.get_bit usage i ≡ b
      → Selects NamesBit bits later
      → Selects NamesBit ((i, name) ∷ bits) (if b then name ∷ later else later)
  step-Selects i name bits later true e h = kept (e, refl) h
  step-Selects i name bits later false e h = dropped (λ shown (set, same). absurd cc) h

  pub usage_strings_from-Selects :
      (names : List (List ℕ)) (i : ℕ)
      → Selects NamesBit (numbered i names) (usage_strings_from openssl usage i names)
  unfolding usage_strings_from
  usage_strings_from-Selects [] i = done
  usage_strings_from-Selects (name ∷ names) i =
      step-Selects i name (numbered (suc i) names) _ (openssl.get_bit usage i) refl
        (usage_strings_from-Selects names (suc i))

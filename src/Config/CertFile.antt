-- ===== src/Config/CertFile.antt =====
-- What `loadCertFromFile` loads.
use spdm_working.Common.{
  ℕ, ◌≡◌, ap, ◌∙◌, [], ◌∷◌, inl, inr, ◌⊎◌, refl, sym, List, Option, none, some, true, false,
  Bool-cases,
}
use spdm_working.Config.{Files, empty, read_file, load_cert_from_file}

-- A certificate that was loaded is what the file holds, and not empty.
abbrev pub FromFile : Files → List ℕ → Option (List ℕ) → Type 0
FromFile files path none = (files.contents path ≡ none) ⊎ (files.contents path ≡ some [])
FromFile files path (some cert) = (empty cert ≡ false) × (files.contents path ≡ some cert)

held :
    (files : Files) (path : List ℕ) (o : Option (List ℕ))
    → files.contents path ≡ o
    → empty (read_file files path) ≡ false
    → files.contents path ≡ some (read_file files path)
unfolding read_file
held files path none c e =
    let nothing : read_file files path ≡ [] = ap (λ o. elim o [ none ↦ [] | some b ↦ b ]) c in
    let same : empty (read_file files path) ≡ true = ap empty nothing in absurd cc
held files path (some bytes) c e =
    let read : read_file files path ≡ bytes = ap (λ o. elim o [ none ↦ [] | some b ↦ b ]) c in
    c ∙ ap some (sym read)

missing :
    (files : Files) (path : List ℕ) (o : Option (List ℕ))
    → files.contents path ≡ o
    → empty (read_file files path) ≡ true
    → (files.contents path ≡ none) ⊎ (files.contents path ≡ some [])
unfolding read_file
missing files path none c e = inl c
missing files path (some []) c e = inr c
missing files path (some (b ∷ bytes)) c e =
    let read : read_file files path ≡ b ∷ bytes = ap (λ o. elim o [ none ↦ [] | some b ↦ b ]) c in
    let same : empty (read_file files path) ≡ false = ap empty read in absurd cc

pub load_cert_from_file-FromFile :
    (files : Files) (path : List ℕ) → FromFile files path (load_cert_from_file files path)
unfolding load_cert_from_file
load_cert_from_file-FromFile files path = elim (Bool-cases (empty (read_file files path))) [
  | inl e ↦ rw e (missing files path (files.contents path) refl e)
  | inr e ↦ rw e (e, held files path (files.contents path) refl e)
]

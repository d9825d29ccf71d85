-- ===== src/Integrity/Pem/Chain.antt =====
-- What `derCertsToPem` makes of a chain.
use spdm_working.Common.{
  Option-cases, ℕ, zero, suc, ◌+◌, ◌≤◌, ◌<◌, ◌≡◌, refl, sym, subst, List, [], ◌∷◌, ◌++◌, Option,
  none, some, inl, inr, length, take, drop, arith, IsBytes, dec_lt, append_assoc, append-nil,
  drop-drop, length-drop, length-take, take-append-drop, drop_all, ◌⊎◌,
}
use spdm_working.Common.Partial.{◌>>=◌}
use spdm_working.Common.Returns.{Returns, Returns-bind, Returns-imp}
use spdm_working.Base64.Reference.{encoding}
use spdm_working.Base64.Loop.{base64_encode-encoding}
use spdm_working.Integrity.Pem.{
  newline, begin_certificate, end_certificate, base64_lines, pem_of, pem_loop, der_certs_to_pem,
}

-- A text cut in lines: each has 64 symbols, the last one 1 to 64.
pub data Lines : List ℕ → List ℕ → Type 0 where
  no_line : Lines [] []
  line :
      {rest text : List ℕ} (head : List ℕ)
      → 0 < length head
      → length head ≤ 64
      → (rest ≡ []) ⊎ (length head ≡ 64)
      → Lines rest text
      → Lines (head ++ rest) (head ++ newline ∷ text)

-- The PEM block of a certificate around the lines of its encoding.
pub data PemBlock : List ℕ → List ℕ → Type 0 where
  block :
      {cert lines : List ℕ}
      → Lines (encoding cert) lines
      → PemBlock cert (begin_certificate ++ lines ++ end_certificate)

-- The certificates that the chain is read as, from an index and a length on: until the chain's
-- length is reached, or no certificate is found.
pub data Certs (get_cert : List ℕ → ℕ → Option (List ℕ)) (der_certs : List ℕ)
    : ℕ → ℕ → List (List ℕ) → Type 0 where
  all_read : {index len : ℕ} → length der_certs ≤ len → Certs get_cert der_certs index len []
  no_more :
      {index len : ℕ} → get_cert der_certs index ≡ none → Certs get_cert der_certs index len []
  cert_read :
      {index len : ℕ} {cert : List ℕ} {certs : List (List ℕ)}
      → len < length der_certs
      → get_cert der_certs index ≡ some cert
      → Certs get_cert der_certs (index + 1) (len + length cert) certs
      → Certs get_cert der_certs index len (cert ∷ certs)

-- Their blocks, one after the other.
pub data PemText : List (List ℕ) → List ℕ → Type 0 where
  no_block : PemText [] []
  next_block :
      {cert pem text : List ℕ} {certs : List (List ℕ)}
      → PemBlock cert pem
      → PemText certs text
      → PemText (cert ∷ certs) (pem ++ text)

abbrev pub last_of : List ℕ → List (List ℕ) → List ℕ
last_of d [] = d
last_of d (c ∷ cs) = last_of c cs

-- What a loop with a text so far returns: the text is continued by one that satisfies `P`.
abbrev Continues : (List ℕ → Type 0) → List ℕ → List ℕ → Type 0
Continues P before result = (text : List ℕ) × (result ≡ before ++ text) × P text

module _ (base64 : List ℕ) (j : ℕ) (lines : List ℕ) (fuel : ℕ) where
  lines-done : length base64 ≤ j → base64_lines (suc fuel) base64 j lines ≡ some lines
  unfolding base64_lines
  lines-done h = ground arith

  lines-more :
      j < length base64
      → base64_lines (suc fuel) base64 j lines
        ≡ base64_lines fuel base64 (j + 64) (lines ++ take 64 (drop j base64) ++ newline ∷ [])
  unfolding base64_lines
  lines-more h = ground arith

first_line :
    (xs text : List ℕ)
    → 0 < length xs
    → Lines (drop 64 xs) text
    → Lines xs (take 64 xs ++ newline ∷ text)
first_line xs text h l =
    subst (λ ys. Lines ys (take 64 xs ++ newline ∷ text)) (take-append-drop 64 xs)
      (line (take 64 xs) (omega (arith, length-take 64 xs)) (omega (arith, length-take 64 xs))
        (elim (dec_lt (length xs) 64) [
          | yes short ↦ inl (drop_all 64 xs (omega arith))
          | no long ↦ inr (omega (arith, length-take 64 xs))
        ])
        l)

Continues-Lines :
    (base64 : List ℕ) (j : ℕ) (lines result : List ℕ)
    → j < length base64
    → Continues
        (Lines (drop (j + 64) base64))
        (lines ++ take 64 (drop j base64) ++ newline ∷ [])
        result
    → Continues (Lines (drop j base64)) lines result
Continues-Lines base64 j lines result inside (text, e, l) = (
  take 64 (drop j base64) ++ newline ∷ text,
  (rw e (simp append_assoc)),
  first_line (drop j base64) text (omega (arith, length-drop j base64))
      (subst (λ ys. Lines ys text) (sym (drop-drop j 64 base64)) l),
)

base64_lines-Lines :
    (fuel : ℕ) (base64 : List ℕ) (j : ℕ) (lines : List ℕ)
    → length base64 < j + fuel
    → 0 < fuel
    → Returns (Continues (Lines (drop j base64)) lines) (base64_lines fuel base64 j lines)
base64_lines-Lines zero base64 j lines h positive = absurd (omega arith)
base64_lines-Lines (suc fuel) base64 j lines h positive = elim (dec_lt j (length base64)) [
  | yes inside ↦ rw (lines-more base64 j lines fuel inside) (
      Returns-imp
        (Continues (Lines (drop (j + 64) base64))
          (lines ++ take 64 (drop j base64) ++ newline ∷ []))
        _ _ (base64_lines-Lines fuel base64 (j + 64) _ (omega arith) (omega arith))
        (λ result c. Continues-Lines base64 j lines result inside c))
  | no outside ↦
      rw (lines-done base64 j lines fuel (omega arith), drop_all j base64 (omega arith))
        ([], sym (append-nil lines), no_line)
]

pem_of-PemBlock : (cert : List ℕ) → IsBytes cert → Returns (PemBlock cert) (pem_of cert)
unfolding pem_of
pem_of-PemBlock cert bs = rw (base64_encode-encoding cert bs) (
    Returns-bind _ _ (base64_lines (length (encoding cert) + 1) (encoding cert) 0 []) _
      (base64_lines-Lines _ (encoding cert) 0 [] (omega arith) (omega arith))
      (λ lines (text, e, l).
        subst (λ t. PemBlock cert (begin_certificate ++ t ++ end_certificate)) (sym e) (block l)))

module _ (get_cert : List ℕ → ℕ → Option (List ℕ)) (der_certs : List ℕ) where
  -- What the loop returns from an index and a length on, with the text and the leaf so far.
  abbrev pub Converted : ℕ → ℕ → List ℕ → List ℕ → List ℕ × List ℕ → Type 0
  Converted index len before last result =
      (certs : List (List ℕ)) × (text : List ℕ) × Certs get_cert der_certs index len certs
      × PemText certs text
      × (result ≡ (before ++ text, last_of last certs))

  module _ (fuel index len : ℕ) (before last : List ℕ) where
    pem_loop-done :
        length der_certs ≤ len
        → pem_loop get_cert (suc fuel) der_certs index len before last ≡ some (before, last)
    unfolding pem_loop
    pem_loop-done h = ground arith

    pem_loop-none :
        get_cert der_certs index ≡ none
        → pem_loop get_cert (suc fuel) der_certs index len before last ≡ some (before, last)
    unfolding pem_loop
    pem_loop-none e = ground arith

    pem_loop-some :
        (cert : List ℕ)
        → len < length der_certs
        → get_cert der_certs index ≡ some cert
        → pem_loop get_cert (suc fuel) der_certs index len before last ≡ (do
          pem ← pem_of cert
          pem_loop get_cert fuel der_certs (index + 1) (len + length cert) (before ++ pem) cert)
    unfolding pem_loop
    pem_loop-some cert h e = ground arith

  Converted-Certs :
      (index len : ℕ) (before last cert pem : List ℕ) (result : List ℕ × List ℕ)
      → len < length der_certs
      → get_cert der_certs index ≡ some cert
      → PemBlock cert pem
      → Converted (index + 1) (len + length cert) (before ++ pem) cert result
      → Converted index len before last result
  Converted-Certs index len before last cert pem result h e b (certs, text, read, t, r) = (
    cert ∷ certs,
    pem ++ text,
    cert_read h e read,
    next_block b t,
    (cc (r, append_assoc before pem text)),
  )

  module _
      (reads : (index : ℕ) (cert : List ℕ)
        → get_cert der_certs index ≡ some cert
        → (0 < length cert) × IsBytes cert) where
    pem_loop-Converted :
        (fuel index len : ℕ) (before last : List ℕ)
        → length der_certs < len + fuel
        → 0 < fuel
        → Returns
            (Converted index len before last)
            (pem_loop get_cert fuel der_certs index len before last)
    pem_loop-Converted zero index len before last h positive = absurd (omega arith)
    pem_loop-Converted (suc fuel) index len before last h positive =
        elim (dec_lt len (length der_certs)) [
          | no outside ↦
              rw (pem_loop-done fuel index len before last (omega arith))
                ([], [], all_read (omega arith), no_block, (rw append-nil refl))
          | yes inside ↦ elim (Option-cases (get_cert der_certs index)) [
            | inl e ↦
                rw (pem_loop-none fuel index len before last e)
                  ([], [], no_more e, no_block, (rw append-nil refl))
            | inr (cert, e) ↦ rw (pem_loop-some fuel index len before last cert inside e) (
                Returns-bind (PemBlock cert) (Converted index len before last) (pem_of cert) _
                  (pem_of-PemBlock cert (reads index cert e).1)
                  (λ pem b.
                    Returns-imp (Converted (index + 1) (len + length cert) (before ++ pem) cert) _ _
                      (pem_loop-Converted fuel (index + 1) (len + length cert) (before ++ pem) cert
                        (omega (arith, (reads index cert e).0))
                        (omega (arith, (reads index cert e).0)))
                      (λ result c.
                        Converted-Certs index len before last cert pem result inside e b c)))
          ]
        ]

    -- Where each certificate that the library finds in the chain is a text of bytes that is not
    -- empty, the conversion ends. Its text has one PEM block for each certificate, in order, whose
    -- lines of at most 64 symbols are the certificate's RFC 4648 encoding; its leaf is the last
    -- certificate, or empty if none was found.
    pub der_certs_to_pem-Converted :
        Returns (Converted 0 0 [] []) (der_certs_to_pem get_cert der_certs)
    unfolding der_certs_to_pem
    der_certs_to_pem-Converted =
        pem_loop-Converted (length der_certs + 1) 0 0 [] [] (omega arith) (omega arith)

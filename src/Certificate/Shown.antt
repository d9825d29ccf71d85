-- ===== src/Certificate/Shown.antt =====
-- What the object of a certificate shows.
use spdm_working.Common.{
  ℕ, ◌^◌, ◌<◌, ◌≡◌, refl, sym, ap, subst, ◌∙◌, ◌⊎◌, inl, inr, List, [], ◌∷◌, Option, none, some,
  arith, Option-cases,
}
use spdm_working.Common.Partial.{◌>>=◌}
use spdm_working.Discovery.Select.{Selects}
use spdm_working.Certificate.{
  OpenSsl, Epoch, since, before, key_usage_map, Properties, or_zero, get_name_oneline,
  asn1_time_to_epoch, get_key_usage_strings, parsed, parse_certificate_pem,
  get_issuer_name_from_der, issuer_of, update_certificate_properties, new_certificate,
}
use spdm_working.Certificate.Usage.{numbered, NamesBit, usage_strings_from-Selects}

module _ (openssl : OpenSsl) where
  -- The usages of a certificate: one name for each bit that is set, in the order of the bits, and
  -- none without the extension.
  abbrev pub ShowsUsage : Option openssl.BitString → List (List ℕ) → Type 0
  ShowsUsage none shown = shown ≡ []
  ShowsUsage (some usage) shown = Selects (NamesBit openssl usage) (numbered 0 key_usage_map) shown

  -- Nothing is shown of a leaf that is empty or is no certificate; of another one its names, its
  -- times in 64 bits, and its usages.
  abbrev pub Shows : List ℕ → Properties → Type 0
  Shows leaf_cert object =
      (((leaf_cert ≡ []) ⊎ (openssl.d2i_x509 leaf_cert ≡ none))
        × (object.issuer ≡ [])
        × (object.subject ≡ [])
        × (object.valid_not_before ≡ 0)
        × (object.valid_not_after ≡ 0)
        × (object.key_usage ≡ []))
      ⊎ ((x : openssl.X509) × (openssl.d2i_x509 leaf_cert ≡ some x)
          × (object.issuer ≡ get_issuer_name_from_der openssl (some leaf_cert))
          × (object.subject ≡ get_name_oneline openssl (openssl.subject_name x))
          × (object.valid_not_before < 2 ^ 64)
          × (object.valid_not_after < 2 ^ 64)
          × ShowsUsage (openssl.key_usage x) object.key_usage)

  or_zero-bound : (t : Option Epoch) → or_zero t < 2 ^ 64
  or_zero-bound none = omega arith
  or_zero-bound (some (since n)) = omega arith
  or_zero-bound (some (before n)) = omega arith

  get_key_usage_strings-ShowsUsage :
      (usage : Option openssl.BitString) → ShowsUsage usage (get_key_usage_strings openssl usage)
  unfolding get_key_usage_strings
  get_key_usage_strings-ShowsUsage none = refl
  get_key_usage_strings-ShowsUsage (some usage) =
      usage_strings_from-Selects openssl usage key_usage_map 0

  update-Shows :
      (pem_chain leaf_cert : List ℕ) (object : Properties)
      → Shows leaf_cert (update_certificate_properties openssl pem_chain leaf_cert object)
  unfolding update_certificate_properties parse_certificate_pem get_issuer_name_from_der
      asn1_time_to_epoch
  update-Shows pem_chain [] object = inl (inl refl, refl, refl, refl, refl, refl)
  update-Shows pem_chain (b ∷ bytes) object = elim (Option-cases (openssl.d2i_x509 (b ∷ bytes))) [
    | inl e ↦
        let p = ap (parsed openssl) e in
        inl (
          inr e,
          ap (λ r. r.issuer) p,
          ap (λ r. r.subject) p,
          ap (λ r. r.not_before) p,
          ap (λ r. r.not_after) p,
          ap (λ r. r.key_usage) p,
        )
    | inr (x, e) ↦
        let p = ap (parsed openssl) e in
        inr (
          x,
          e,
          ap (λ r. r.issuer) p ∙ sym (ap (issuer_of openssl) e),
          ap (λ r. r.subject) p,
          subst (λ r. r.not_before < 2 ^ 64) (sym p)
              (or_zero-bound (openssl.not_before x >>= openssl.to_epoch)),
          subst (λ r. r.not_after < 2 ^ 64) (sym p)
              (or_zero-bound (openssl.not_after x >>= openssl.to_epoch)),
          subst (λ r. ShowsUsage (openssl.key_usage x) r.key_usage) (sym p)
              (get_key_usage_strings-ShowsUsage (openssl.key_usage x)),
        )
  ]

  -- An object whose properties are updated, however it was made, shows the new chain's text and the
  -- leaf it was updated with, and nothing of the former one: it is the object that a
  -- constructor would make. It shows nothing but empty properties of a leaf that is empty or is no
  -- certificate; of another, the issuer that `getIssuerNameFromDer` finds, the subject, times of 64
  -- bits, and the names of exactly the usages whose bits are set, in their order.
  pub update_certificate_properties-Shows :
      (path former_chain former_leaf pem_chain leaf_cert : List ℕ)
      → let object =
          update_certificate_properties openssl pem_chain leaf_cert
            (new_certificate openssl path former_chain former_leaf) in
        (object ≡ new_certificate openssl path pem_chain leaf_cert)
        × (object.certificate_string ≡ pem_chain)
        × Shows leaf_cert object
  unfolding update_certificate_properties new_certificate
  update_certificate_properties-Shows path former_chain former_leaf pem_chain leaf_cert = (
    refl,
    refl,
    update-Shows pem_chain leaf_cert (new_certificate openssl path former_chain former_leaf),
  )

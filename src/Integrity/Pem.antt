-- ===== src/Integrity/Pem.antt =====
-- `derCertsToPem`: the certificates of a chain as PEM text.
pub mod Chain
use spdm_working.Common.{
  ℕ, zero, suc, ◌+◌, List, [], ◌∷◌, ◌++◌, Option, none, some, true, false, ltb, length, take, drop,
}
use spdm_working.Common.Partial.{◌>>=◌}
use spdm_working.Common.Text.{codes}
use spdm_working.Base64.{base64_encode}

abbrev pub newline : ℕ
newline = 10

abbrev pub begin_certificate : List ℕ
begin_certificate = codes "-----BEGIN CERTIFICATE-----" ++ newline ∷ []

abbrev pub end_certificate : List ℕ
end_certificate = codes "-----END CERTIFICATE-----" ++ newline ∷ []

-- The loop that cuts the text in lines of 64, with fuel.
unfoldable pub base64_lines : ℕ → List ℕ → ℕ → List ℕ → Option (List ℕ)
base64_lines zero base64 j lines = none
base64_lines (suc fuel) base64 j lines = elim (ltb j (length base64)) [
  | false ↦ some lines
  | true ↦ base64_lines fuel base64 (j + 64) (lines ++ take 64 (drop j base64) ++ newline ∷ [])
]

-- One certificate. The encoder inside the loop has the statements of `base64Encode`.
unfoldable pub pem_of : List ℕ → Option (List ℕ)
pem_of cert = do
  base64 ← base64_encode cert
  lines ← base64_lines (length base64 + 1) base64 0 []
  some (begin_certificate ++ lines ++ end_certificate)

-- The loop over the chain, with fuel; `get_cert` is `libspdm_x509_get_cert_from_cert_chain`.
module _ (get_cert : List ℕ → ℕ → Option (List ℕ)) where
  unfoldable pub pem_loop : ℕ → List ℕ → ℕ → ℕ → List ℕ → List ℕ → Option (List ℕ × List ℕ)
  pem_loop zero der_certs index current_cert_len pem_chain last_cert = none
  pem_loop (suc fuel) der_certs index current_cert_len pem_chain last_cert =
      elim (ltb current_cert_len (length der_certs)) [
        | false ↦ some (pem_chain, last_cert)
        | true ↦ elim (get_cert der_certs index) [
          | none ↦ some (pem_chain, last_cert)
          | some cert ↦ do
            pem ← pem_of cert
            pem_loop fuel der_certs (index + 1) (current_cert_len + length cert) (pem_chain ++ pem)
                cert
        ]
      ]

  unfoldable pub der_certs_to_pem : List ℕ → Option (List ℕ × List ℕ)
  der_certs_to_pem der_certs = pem_loop (length der_certs + 1) der_certs 0 0 [] []

-- ===== src/Integrity/Examples.antt =====
-- Runs of the requests, and the theorems at concrete inputs.
use spdm_working.Common.{
  ℕ, zero, suc, ◌<◌, ◌≡◌, refl, subst, List, [], ◌∷◌, none, some, arith, length, IsBytes,
}
use spdm_working.Common.Returns.{Returns}
use spdm_working.Exceptions.{ok, threw, invalid_argument}
use spdm_working.Libspdm.Demo.{demo, demo_world, one_cert}
use spdm_working.Base64.Reference.{encoding}
use spdm_working.Certificate.Demo.{openssl}
use spdm_working.Integrity.{Component, State, new_component, with_transport}
use spdm_working.Integrity.Evidence.{certificate_path_of, method_call}
use spdm_working.Integrity.Evidence.Replies.{Reply, method_call-Reply}
use spdm_working.Libspdm.Demo.{demo_algorithms}
use spdm_working.Integrity.Indices.{
  validate_measurement_indices, validate_special_value_combinations, validate_regular_indices,
  check_for_duplicate_indices,
}
use spdm_working.Integrity.Indices.Decision.{
  Decides, IsAcceptable, validate_measurement_indices-Decides,
}
use spdm_working.Integrity.Measurements.{indices_to_process, get_signed_measurements}
use spdm_working.Integrity.Measurements.Collection.{Outcome, get_signed_measurements-Outcome}
use spdm_working.Integrity.Pem.{der_certs_to_pem}
use spdm_working.Integrity.Pem.Chain.{Converted, der_certs_to_pem-Converted}

abbrev component : Component
component = with_transport (some 0) (new_component (47 ∷ 67 ∷ []) 0)

abbrev fresh : State ℕ
fresh = record { world = demo_world; certificate_object = none }

accepts_distinct : validate_measurement_indices (3 ∷ 1 ∷ 254 ∷ []) ≡ ok tt
unfolding validate_measurement_indices validate_special_value_combinations validate_regular_indices
    check_for_duplicate_indices
accepts_distinct = refl

rejects_repeated : validate_measurement_indices (3 ∷ 1 ∷ 3 ∷ []) ≡ threw invalid_argument
unfolding validate_measurement_indices validate_special_value_combinations validate_regular_indices
    check_for_duplicate_indices
rejects_repeated = refl

rejects_mixed : validate_measurement_indices (255 ∷ 1 ∷ []) ≡ threw invalid_argument
unfolding validate_measurement_indices validate_special_value_combinations validate_regular_indices
    check_for_duplicate_indices
rejects_mixed = refl

validate_measurement_indices-Decides_example :
    Decides (IsAcceptable (3 ∷ 1 ∷ 3 ∷ [])) (validate_measurement_indices (3 ∷ 1 ∷ 3 ∷ []))
validate_measurement_indices-Decides_example = validate_measurement_indices-Decides (3 ∷ 1 ∷ 3 ∷ [])

get_signed_measurements-Outcome_example :
    Outcome demo 0 0 encoding
      (indices_to_process (1 ∷ 2 ∷ []))
      fresh
      (get_signed_measurements demo component (1 ∷ 2 ∷ []) [] 0 fresh)
get_signed_measurements-Outcome_example =
    get_signed_measurements-Outcome demo 0 0 (λ operation d. omega arith) component (1 ∷ 2 ∷ []) []
      fresh refl refl

one_cert-reads :
    (chain : List ℕ) (index : ℕ) (cert : List ℕ)
    → one_cert chain index ≡ some cert
    → (0 < length cert) × IsBytes cert
one_cert-reads chain zero cert e =
    let found : 65 ∷ 66 ∷ [] ≡ cert = cc e in
    subst (λ c. (0 < length c) × IsBytes c) found (omega arith, omega arith)
one_cert-reads chain (suc index) cert e = absurd (cc e)

der_certs_to_pem-Converted_example :
    Returns (Converted one_cert (65 ∷ 66 ∷ []) 0 0 [] []) (der_certs_to_pem one_cert (65 ∷ 66 ∷ []))
der_certs_to_pem-Converted_example =
    der_certs_to_pem-Converted one_cert (65 ∷ 66 ∷ []) (one_cert-reads (65 ∷ 66 ∷ []))

method_call-Reply_example :
    Reply demo
      (certificate_path_of (47 ∷ 67 ∷ []))
      openssl
      component
      0
      (method_call demo openssl demo_algorithms (λ path. path) component (1 ∷ []) [] 0 fresh)
unfolding new_component
method_call-Reply_example =
    method_call-Reply demo (certificate_path_of (47 ∷ 67 ∷ [])) openssl demo_algorithms
      (λ path. path) one_cert-reads 0 (λ t operation d. omega arith) component refl (1 ∷ []) []
      fresh tt

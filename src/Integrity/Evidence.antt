-- ===== src/Integrity/Evidence.antt =====
-- `method_call`: the whole request, and what it publishes.
pub mod Requests
pub mod Replies
use spdm_working.Common.{ℕ, List, [], ◌∷◌, ◌++◌, Option, none, some, ◌==◌, if◌then◌else◌, u16}
use spdm_working.Common.Text.{codes}
use spdm_working.Exceptions.{Result, ok, threw, unfinished, runtime_error}
use spdm_working.Exceptions.Action.{Action, return, throw, lift, ◌>>=◌, ◌>>◌}
use spdm_working.Libspdm.{Libspdm, Algorithms}
use spdm_working.Certificate.{OpenSsl, Properties, new_certificate, update_certificate_properties}
use spdm_working.Integrity.{Component, State, require_context}
use spdm_working.Integrity.Indices.{validate_measurement_indices}
use spdm_working.Integrity.Measurements.{get_signed_measurements}
use spdm_working.Integrity.Certificates.{
  initialize_spdm_connection, get_certificate_digests, get_certificate,
}

-- The tuple that the method returns.
pub record Evidence : Type 0 where
  pub certificate_path : List ℕ
  pub hashing_algorithm : List ℕ
  pub public_key : List ℕ
  pub signed_measurements : List ℕ
  pub signing_algorithm : List ℕ
  pub version : List ℕ

unfoldable pub get_hashing_algorithm_str : Algorithms → ℕ → List ℕ
get_hashing_algorithm_str algorithms algo =
    if algo == algorithms.sha_256
    then codes "SHA256"
    else if algo == algorithms.sha_384
    then codes "SHA384"
    else if algo == algorithms.sha_512
    then codes "SHA512"
    else codes "NONE"

unfoldable pub get_signing_algorithm_str : Algorithms → ℕ → List ℕ
get_signing_algorithm_str algorithms algo =
    if algo == algorithms.rsassa_2048
    then codes "RSASSA2048"
    else if algo == algorithms.rsapss_2048
    then codes "RSAPSS2048"
    else if algo == algorithms.ecdsa_p256
    then codes "ECDSA_P256"
    else if algo == algorithms.ecdsa_p384
    then codes "ECDSA_P384"
    else if algo == algorithms.ecdsa_p521
    then codes "ECDSA_P521"
    else codes "NONE"

abbrev pub certificate_path_of : List ℕ → List ℕ
certificate_path_of chassis_id =
    codes "/xyz/openbmc_project/certs/devices/" ++ chassis_id ++ codes "/" ++ codes "CertChain"

-- An object that is there is updated; otherwise one is made at the path.
unfoldable pub publish : OpenSsl → List ℕ → List ℕ → List ℕ → Option Properties → Properties
publish openssl object_path cert_pem leaf none = new_certificate openssl object_path cert_pem leaf
publish openssl object_path cert_pem leaf (some c) =
    update_certificate_properties openssl cert_pem leaf c

unfoldable pub update_certificate_object :
    {D : Type 0} → OpenSsl → List ℕ → List ℕ → List ℕ → Action (State D) (List ℕ)
unfolding publish
update_certificate_object openssl chassis_id [] leaf s =
    throw (runtime_error "Certificate PEM is empty") s
update_certificate_object openssl chassis_id (c ∷ pem) leaf s =
    let object_path = certificate_path_of chassis_id in
    return object_path (record s {
      certificate_object = some (publish openssl object_path (c ∷ pem) leaf s.certificate_object);
    })

-- `catch`: the reply with the object's own path and empty texts.
unfoldable pub failure : Component → Evidence
failure component = record {
  certificate_path = component.path;
  hashing_algorithm = [];
  public_key = [];
  signed_measurements = [];
  signing_algorithm = [];
  version = component.type_version;
}

abbrev pub caught : {S : Type 0} → Evidence → Result Evidence × S → Option Evidence × S
caught e (ok evidence, s) = (some evidence, s)
caught e (threw x, s) = (some e, s)
caught e (unfinished, s) = (none, s)

-- `filename` is `sdbusplus::message::object_path::filename`.
module _ {D : Type 0} (lib : Libspdm D) (openssl : OpenSsl) (algorithms : Algorithms)
    (filename : List ℕ → List ℕ) where
  -- The tuple, from the algorithms that the context has negotiated.
  unfoldable pub describe : Component → List ℕ → List ℕ → List ℕ → ℕ → Action (State D) Evidence
  describe component cert_pem signed_meas object_path t s =
      return
        (record {
          certificate_path = object_path;
          hashing_algorithm =
              get_hashing_algorithm_str algorithms (u16 (lib.base_hash_algo t s.world.device));
          public_key = cert_pem;
          signed_measurements = signed_meas;
          signing_algorithm =
              get_signing_algorithm_str algorithms (u16 (lib.base_asym_algo t s.world.device));
          version = component.type_version;
        })
        s

  -- What follows the publication, the measurements, the certificate and the connection.
  unfoldable pub after_publication :
      Component → List ℕ → List ℕ → List ℕ → Action (State D) Evidence
  unfolding describe
  after_publication component cert_pem signed_meas object_path =
      require_context component.transport >>= describe component cert_pem signed_meas object_path

  unfoldable pub after_measurements :
      Component → List ℕ × List ℕ × List ℕ → List ℕ → Action (State D) Evidence
  unfolding after_publication
  after_measurements component certs signed_meas =
      update_certificate_object openssl (filename component.path) certs.0 certs.2
      >>= after_publication component certs.0 signed_meas

  unfoldable pub after_certificate :
      Component → List ℕ → List ℕ → ℕ → List ℕ × List ℕ × List ℕ → Action (State D) Evidence
  unfolding after_measurements
  after_certificate component measurement_indices nonce slot_id certs =
      get_signed_measurements lib component measurement_indices nonce slot_id
      >>= after_measurements component certs

  unfoldable pub after_digests :
      Component → List ℕ → List ℕ → ℕ → ℕ × List ℕ × ℕ → Action (State D) Evidence
  unfolding after_certificate
  after_digests component measurement_indices nonce slot_id digests =
      get_certificate lib component slot_id
      >>= after_certificate component measurement_indices nonce slot_id

  unfoldable pub after_validation :
      Component → List ℕ → List ℕ → ℕ → Unit {0} → Action (State D) Evidence
  unfolding after_digests
  after_validation component measurement_indices nonce slot_id _ =
      initialize_spdm_connection lib component >>= λ _.
      get_certificate_digests lib component
      >>= after_digests component measurement_indices nonce slot_id

  unfoldable pub try_method_call : Component → List ℕ → List ℕ → ℕ → Action (State D) Evidence
  unfolding after_validation
  try_method_call component measurement_indices nonce slot_id =
      lift (validate_measurement_indices measurement_indices)
      >>= after_validation component measurement_indices nonce slot_id

  -- `none` stands for a loop without fuel only.
  unfoldable pub method_call : Component → List ℕ → List ℕ → ℕ → State D → Option Evidence × State D
  unfolding try_method_call
  method_call component measurement_indices nonce slot_id s =
      caught (failure component) (try_method_call component measurement_indices nonce slot_id s)

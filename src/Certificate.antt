-- ===== src/Certificate.antt =====
-- `Certificate` of requester/certificate_dbus.cpp: the properties that the D-Bus object of a
-- certificate shows. OpenSSL is not part of the repository: its calls are a parameter.
pub mod Usage
pub mod Shown
pub mod Demo
mod Examples
use spdm_working.Common.{
  ℕ, zero, suc, ◌-◌, ◌^◌, u64, List, [], ◌∷◌, Option, none, some, Bool, true, false, if◌then◌else◌,
}
use spdm_working.Common.Text.{codes}
use spdm_working.Common.Partial.{◌>>=◌}

-- `time_t`, which has a sign: seconds since the epoch, or before it.
pub data Epoch : Type 0 where
  since before : ℕ → Epoch

-- A pointer that may be null is an option. `oneline` is `X509_NAME_oneline` into a buffer of the
-- size given; `to_epoch` is `ASN1_TIME_to_tm` and then `timegm`.
pub record OpenSsl : Type 1 where
  pub X509 : Type 0
  pub Name : Type 0
  pub Asn1Time : Type 0
  pub BitString : Type 0
  pub d2i_x509 : List ℕ → Option X509
  pub issuer_name : X509 → Option Name
  pub subject_name : X509 → Option Name
  pub oneline : Name → ℕ → Option (List ℕ)
  pub not_before : X509 → Option Asn1Time
  pub not_after : X509 → Option Asn1Time
  pub to_epoch : Asn1Time → Option Epoch
  pub key_usage : X509 → Option BitString
  pub get_bit : BitString → ℕ → Bool

-- `keyUsageMap`.
abbrev pub key_usage_map : List (List ℕ)
key_usage_map =
    codes "DigitalSignature"
    ∷ codes "NonRepudiation"
    ∷ codes "KeyEncipherment"
    ∷ codes "DataEncipherment"
    ∷ codes "KeyAgreement"
    ∷ codes "KeyCertSign"
    ∷ codes "CRLSigning"
    ∷ codes "EncipherOnly"
    ∷ codes "DecipherOnly"
    ∷ []

-- What `parseCertificatePEM` returns.
pub record Parsed : Type 0 where
  pub issuer : List ℕ
  pub subject : List ℕ
  pub not_before : ℕ
  pub not_after : ℕ
  pub key_usage : List (List ℕ)

abbrev pub nothing_parsed : Parsed
nothing_parsed = record { issuer = []; subject = []; not_before = 0; not_after = 0; key_usage = [] }

-- The properties of the object.
pub record Properties : Type 0 where
  pub path : List ℕ
  pub certificate_string : List ℕ
  pub issuer : List ℕ
  pub subject : List ℕ
  pub valid_not_before : ℕ
  pub valid_not_after : ℕ
  pub key_usage : List (List ℕ)

-- `static_cast<uint64_t>` of a `time_t`.
abbrev pub to_uint64 : Epoch → ℕ
to_uint64 (since n) = u64 n
to_uint64 (before n) = u64 (2 ^ 64 - n)

abbrev pub or_empty : Option (List ℕ) → List ℕ
or_empty none = []
or_empty (some s) = s

abbrev pub or_zero : Option Epoch → ℕ
or_zero none = 0
or_zero (some t) = to_uint64 t

module _ (openssl : OpenSsl) where
  open openssl use {X509, Name, Asn1Time, BitString, d2i_x509, get_bit}

  unfoldable pub get_name_oneline : Option Name → List ℕ
  get_name_oneline name = or_empty (name >>= (λ n. openssl.oneline n 256))

  unfoldable pub asn1_time_to_epoch : Option Asn1Time → ℕ
  asn1_time_to_epoch time = or_zero (time >>= openssl.to_epoch)

  -- The loop over the names from the bit `i` on.
  unfoldable pub usage_strings_from : BitString → ℕ → List (List ℕ) → List (List ℕ)
  usage_strings_from usage i [] = []
  usage_strings_from usage i (name ∷ names) =
      let later = usage_strings_from usage (suc i) names in
      if get_bit usage i then name ∷ later else later

  unfoldable pub get_key_usage_strings : Option BitString → List (List ℕ)
  get_key_usage_strings none = []
  get_key_usage_strings (some usage) = usage_strings_from usage 0 key_usage_map

  abbrev pub parsed : Option X509 → Parsed
  parsed none = nothing_parsed
  parsed (some x) = record {
    issuer = get_name_oneline (openssl.issuer_name x);
    subject = get_name_oneline (openssl.subject_name x);
    not_before = asn1_time_to_epoch (openssl.not_before x);
    not_after = asn1_time_to_epoch (openssl.not_after x);
    key_usage = get_key_usage_strings (openssl.key_usage x);
  }

  unfoldable pub parse_certificate_pem : List ℕ → Parsed
  parse_certificate_pem [] = nothing_parsed
  parse_certificate_pem (b ∷ bytes) = parsed (d2i_x509 (b ∷ bytes))

  -- `certPtr` and `certLen`; `none` is a null pointer.
  abbrev pub issuer_of : Option X509 → List ℕ
  issuer_of none = []
  issuer_of (some x) = get_name_oneline (openssl.issuer_name x)

  unfoldable pub get_issuer_name_from_der : Option (List ℕ) → List ℕ
  get_issuer_name_from_der none = []
  get_issuer_name_from_der (some []) = []
  get_issuer_name_from_der (some (b ∷ bytes)) = issuer_of (d2i_x509 (b ∷ bytes))

  -- The assignments to the properties.
  unfoldable pub update_certificate_properties : List ℕ → List ℕ → Properties → Properties
  update_certificate_properties pem_chain leaf_cert object =
      let p = parse_certificate_pem leaf_cert in
      record object {
        certificate_string = pem_chain;
        issuer = p.issuer;
        subject = p.subject;
        valid_not_before = p.not_before;
        valid_not_after = p.not_after;
        key_usage = p.key_usage;
      }

  unfoldable pub new_certificate : List ℕ → List ℕ → List ℕ → Properties
  new_certificate path pem_chain leaf_cert =
      let p = parse_certificate_pem leaf_cert in
      record {
        path = path;
        certificate_string = pem_chain;
        issuer = p.issuer;
        subject = p.subject;
        valid_not_before = p.not_before;
        valid_not_after = p.not_after;
        key_usage = p.key_usage;
      }

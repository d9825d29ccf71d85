-- ===== src/Certificate/Examples.antt =====
-- A parser that knows one certificate, and the theorem at it.
use spdm_working.Common.{◌≡◌, refl, [], ◌∷◌}
use spdm_working.Common.Text.{codes}
use spdm_working.Certificate.{
  Properties, get_name_oneline, asn1_time_to_epoch, get_key_usage_strings, usage_strings_from,
  parse_certificate_pem, update_certificate_properties, new_certificate,
}
use spdm_working.Certificate.Demo.{openssl}
use spdm_working.Certificate.Shown.{Shows, update_certificate_properties-Shows}

abbrev object : Properties
object = new_certificate openssl (codes "/c") (codes "old") (48 ∷ [])

-- A time before the epoch wraps around.
updates : update_certificate_properties openssl (codes "new") (48 ∷ 3 ∷ []) object ≡ record {
  path = codes "/c";
  certificate_string = codes "new";
  issuer = codes "/CN=ca";
  subject = [];
  valid_not_before = 18446744073709551615;
  valid_not_after = 0;
  key_usage = codes "DigitalSignature" ∷ codes "KeyCertSign" ∷ [];
}
unfolding update_certificate_properties new_certificate parse_certificate_pem get_name_oneline
    asn1_time_to_epoch get_key_usage_strings usage_strings_from
updates = refl

update_certificate_properties-Shows_example :
    let made = update_certificate_properties openssl (codes "new") (48 ∷ 3 ∷ []) object in
    (made ≡ new_certificate openssl (codes "/c") (codes "new") (48 ∷ 3 ∷ []))
    × (made.certificate_string ≡ codes "new")
    × Shows openssl (48 ∷ 3 ∷ []) made
update_certificate_properties-Shows_example =
    update_certificate_properties-Shows openssl (codes "/c") (codes "old") (48 ∷ []) (codes "new")
      (48 ∷ 3 ∷ [])

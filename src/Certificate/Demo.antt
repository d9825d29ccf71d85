-- ===== src/Certificate/Demo.antt =====
-- A parser that knows one certificate, for tests.
use spdm_working.Common.{ℕ, ◌==◌, ltb, length, if◌then◌else◌, ◌||◌, List, none, some}
use spdm_working.Common.Text.{codes}
use spdm_working.Certificate.{OpenSsl, before}

abbrev pub openssl : OpenSsl
openssl = record {
  X509 = Unit {0};
  Name = List ℕ;
  Asn1Time = ℕ;
  BitString = Unit {0};
  d2i_x509 = λ bytes. if ltb 1 (length bytes) then some tt else none;
  issuer_name = λ x. some (codes "/CN=ca");
  subject_name = λ x. none;
  oneline = λ name size. some name;
  not_before = λ x. some 1;
  not_after = λ x. none;
  to_epoch = λ t. some (before t);
  key_usage = λ x. some tt;
  get_bit = λ usage i. i == 0 || i == 5;
}

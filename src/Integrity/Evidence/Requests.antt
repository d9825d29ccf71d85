-- ===== src/Integrity/Evidence/Requests.antt =====
-- What each request of `method_call` leaves of the published certificate.
use spdm_working.Common.{
  ℕ, ◌≡◌, ap, ◌<◌, inl, inr, refl, List, [], ◌∷◌, Option, none, some, Bool, true, false, Bool-cases,
  IsBytes, length, ltb, drop, u8, ◌+◌, if◌then◌else◌,
}
use spdm_working.Common.Returns.{Returns}
use spdm_working.Exceptions.{Result, ok, threw, unfinished, runtime_error}
use spdm_working.Exceptions.Action.{Action, after, from_option, return, throw}
use spdm_working.Libspdm.{Libspdm, context_of}
use spdm_working.Base64.Reference.{encoding}
use spdm_working.Certificate.{OpenSsl, Properties, new_certificate, update_certificate_properties}
use spdm_working.Integrity.{Component, State, require_context}
use spdm_working.Integrity.Measurements.{indices_to_process, get_signed_measurements}
use spdm_working.Integrity.Measurements.Collection.{
  Outcome, measured, gave_up, encoded, collect-Outcome,
}
use spdm_working.Integrity.Pem.{der_certs_to_pem}
use spdm_working.Integrity.Pem.Chain.{der_certs_to_pem-Converted}
use spdm_working.Integrity.Certificates.{
  initialize_spdm_connection, get_certificate_digests, get_certificate, split_chain, converted,
  spdm_cert_chain_header_size,
}
use spdm_working.Integrity.Evidence.{update_certificate_object, publish, certificate_path_of}

-- What holds of an action's outcome: `Q` where it returns, `E` where it throws; it ends.
abbrev pub Post : {S A : Type 0} → (A → S → Type 0) → (S → Type 0) → Result A × S → Type 0
Post Q E (ok a, s) = Q a s
Post Q E (threw e, s) = E s
Post Q E (unfinished, s) = ⊥

pub Post-after :
    {S A B : Type 0} (Q : A → S → Type 0) (R : B → S → Type 0) (E : S → Type 0) (r : Result A × S)
    (f : A → Action S B)
    → Post Q E r
    → ((a : A) (s : S) → Q a s → Post R E (f a s))
    → Post R E (after r f)
Post-after Q R E (ok a, s) f q k = k a s q
Post-after Q R E (threw e, s) f q k = q
Post-after Q R E (unfinished, s) f q k = absurd q

-- The published certificate, if there is one, stands at a path.
abbrev pub At : List ℕ → Option Properties → Type 0
At path none = Unit
At path (some c) = c.path ≡ path

module _ {D : Type 0} (lib : Libspdm D) (path : List ℕ) where
  abbrev pub Keeps : State D → Type 0
  Keeps s = At path s.certificate_object

  abbrev pub Kept : {A : Type 0} → A → State D → Type 0
  Kept a s = Keeps s

  -- The transport was there, with its context.
  pub require_context-Post :
      (Q : State D → Type 0) (transport : Option ℕ) (s : State D)
      → Q s
      → Keeps s
      → Post (λ t s'. Q s') Keeps (require_context transport s)
  unfolding require_context
  require_context-Post Q none s q k = k
  require_context-Post Q (some t) s q k = elim (Bool-cases (context_of t s.world)) [
    | inl present ↦ rw present q
    | inr absent ↦ rw absent k
  ]

  require_context-transport :
      (transport : Option ℕ) (s : State D)
      → Keeps s
      → Post (λ t s'. Keeps s' × (transport ≡ some t)) Keeps (require_context transport s)
  unfolding require_context
  require_context-transport none s k = k
  require_context-transport (some t) s k = elim (Bool-cases (context_of t s.world)) [
    | inl present ↦ rw present (k, refl)
    | inr absent ↦ rw absent k
  ]

  pub initialize-Post :
      (c : Component) (s : State D) → Keeps s → Post Kept Keeps (initialize_spdm_connection lib c s)
  unfolding initialize_spdm_connection
  initialize-Post c s k =
      Post-after Kept Kept Keeps (require_context c.transport s) _
        (require_context-Post Keeps c.transport s k k)
        (λ t s' k'. elim (Bool-cases (lib.is_error (lib.init_connection t s'.world.device).0)) [
          | inl bad ↦ rw bad k'
          | inr good ↦ rw good k'
        ])

  pub digests-Post :
      (c : Component) (s : State D) → Keeps s → Post Kept Keeps (get_certificate_digests lib c s)
  unfolding get_certificate_digests
  digests-Post c s k =
      Post-after Kept Kept Keeps (require_context c.transport s) _
        (require_context-Post Keeps c.transport s k k)
        (λ t s' k'. elim (Bool-cases (lib.is_error (lib.get_digest t s'.world.device).0.0)) [
          | inl bad ↦ rw bad k'
          | inr good ↦ rw good k'
        ])

  -- The library finds certificates of bytes only, and none that is empty.
  abbrev pub FindsCertificates : Type 0
  FindsCertificates =
      (chain : List ℕ) (index : ℕ) (cert : List ℕ)
      → lib.get_cert_from_cert_chain chain index ≡ some cert
      → (0 < length cert) × IsBytes cert

  -- Measurement records are bytes.
  abbrev pub MeasuresBytes : ℕ → Type 0
  MeasuresBytes slot_id =
      (t operation : ℕ) (d : D) → IsBytes (lib.get_measurement t 0 operation slot_id d).0.2

  -- The text and the leaf are made of the chain that the device of a transport answers for a slot,
  -- behind its header and hash.
  abbrev pub FromDevice : ℕ → ℕ → List ℕ → List ℕ → Type 0
  FromDevice t slot_id pem leaf =
      (d : D) × (lib.is_error (lib.get_certificate t slot_id d).0.0 ≡ false)
      × (der_certs_to_pem lib.get_cert_from_cert_chain (
            drop
              (spdm_cert_chain_header_size
                + lib.get_hash_size (lib.base_hash_algo t (lib.get_certificate t slot_id d).1))
              (lib.get_certificate t slot_id d).0.1)
          ≡ some (pem, leaf))

  -- For the component's transport.
  abbrev pub Fetched : Component → ℕ → List ℕ → List ℕ → Type 0
  Fetched c slot_id pem leaf = (t : ℕ) × (c.transport ≡ some t) × FromDevice t slot_id pem leaf

  abbrev pub KeptWith : (List ℕ → List ℕ → Type 0) → List ℕ × List ℕ × List ℕ → State D → Type 0
  KeptWith F certs s = Keeps s × F certs.0 certs.2

  converted-Post :
      FindsCertificates
      → (F : List ℕ → List ℕ → Type 0) (offset : ℕ) (chain : List ℕ) (s : State D) → Keeps s
      → ((pem leaf : List ℕ)
          → der_certs_to_pem lib.get_cert_from_cert_chain (drop offset chain) ≡ some (pem, leaf)
          → F pem leaf)
      → Post (KeptWith F) Keeps (converted lib offset chain s)
  unfolding converted
  converted-Post finds F offset chain s k made =
      ended _ (der_certs_to_pem lib.get_cert_from_cert_chain (drop offset chain)) refl
        (der_certs_to_pem-Converted lib.get_cert_from_cert_chain (drop offset chain) (finds _))
    where
      ended :
          (P : List ℕ × List ℕ → Type 0) (o : Option (List ℕ × List ℕ))
          → der_certs_to_pem lib.get_cert_from_cert_chain (drop offset chain) ≡ o
          → Returns P o
          → Post (KeptWith F) Keeps (after (from_option o s) (λ r. return (r.0, chain, r.1)))
      ended P none e r = absurd r
      ended P (some a) e r = (k, made a.0 a.1 e)

  split_chain-Post :
      FindsCertificates
      → (F : List ℕ → List ℕ → Type 0) (t : ℕ) (chain : List ℕ) (s : State D) → Keeps s
      → ((pem leaf : List ℕ)
          → der_certs_to_pem lib.get_cert_from_cert_chain (
              drop
                (spdm_cert_chain_header_size
                  + lib.get_hash_size (lib.base_hash_algo t s.world.device))
                chain)
            ≡ some (pem, leaf)
          → F pem leaf)
      → Post (KeptWith F) Keeps (split_chain lib t chain s)
  unfolding split_chain
  split_chain-Post finds F t chain s k made = tested (ltb (length chain) _)
    where
      tested :
          (b : Bool)
          → Post (KeptWith F) Keeps (
              if b
              then throw (runtime_error "Certificate chain too small") s
              else converted lib
                  (spdm_cert_chain_header_size
                    + lib.get_hash_size (lib.base_hash_algo t s.world.device))
                  chain
                  s)
      tested true = k
      tested false = converted-Post finds F _ chain s k made

  pub get_certificate-Post :
      FindsCertificates
      → (c : Component) (slot_id : ℕ) (s : State D) → Keeps s
      → Post (KeptWith (Fetched c (u8 slot_id))) Keeps (get_certificate lib c slot_id s)
  unfolding get_certificate
  get_certificate-Post finds c slot_id s k =
      Post-after (λ t s'. Keeps s' × (c.transport ≡ some t)) (KeptWith (Fetched c (u8 slot_id)))
        Keeps (require_context c.transport s) _ (require_context-transport c.transport s k)
        (λ t s' (k', at).
          elim (Bool-cases
            (lib.is_error (lib.get_certificate t (u8 slot_id) s'.world.device).0.0)) [
              | inl bad ↦ rw bad k'
              | inr good ↦ rw good (
                  split_chain-Post finds (Fetched c (u8 slot_id)) t _ _ k'
                    (λ pem leaf e. (t, at, (s'.world.device, good, e))))
            ])

  Outcome-Post :
      (t slot_id : ℕ) (make : List ℕ → List ℕ) (indices : List ℕ) (s : State D)
      (r : Result (List ℕ) × State D)
      → Keeps s
      → Outcome lib t slot_id make indices s r
      → Post Kept Keeps r
  Outcome-Post t slot_id make indices s r k (measured m e) = k
  Outcome-Post t slot_id make indices s r k (gave_up g) = k

  pub get_signed_measurements-Post :
      (slot_id : ℕ)
      → MeasuresBytes (u8 slot_id)
      → (c : Component) (indices nonce : List ℕ) (s : State D) → Keeps s
      → Post Kept Keeps (get_signed_measurements lib c indices nonce slot_id s)
  unfolding get_signed_measurements
  get_signed_measurements-Post slot_id law c indices nonce s k =
      Post-after Kept Kept Keeps (require_context c.transport s) _
        (require_context-Post Keeps c.transport s k k)
        (λ t s' k'. Outcome-Post t slot_id encoding (indices_to_process indices) s' _ k' (
          encoded lib t slot_id (law t) (indices_to_process indices) s' _
            (collect-Outcome lib t slot_id (indices_to_process indices) [] s')))

  module _ (openssl : OpenSsl) where
    -- The published certificate is the one that a constructor makes at the path for the chain and
    -- the leaf.
    abbrev pub Published : (List ℕ → List ℕ → Type 0) → List ℕ → List ℕ → State D → Type 0
    Published F reply_path pem s =
        ((leaf : List ℕ) × F pem leaf
          × (s.certificate_object ≡ some (new_certificate openssl path pem leaf)))
        × (reply_path ≡ path)

    publish-new_certificate :
        (o : Option Properties) (pem leaf : List ℕ)
        → At path o
        → publish openssl path pem leaf o ≡ new_certificate openssl path pem leaf
    unfolding publish new_certificate update_certificate_properties
    publish-new_certificate none pem leaf k = refl
    publish-new_certificate (some c) pem leaf k = rw k refl

    pub update-Post :
        (F : List ℕ → List ℕ → Type 0) (chassis_id pem leaf : List ℕ) (s : State D)
        → certificate_path_of chassis_id ≡ path
        → Keeps s
        → F pem leaf
        → Post
            (λ reply_path s'. Published F reply_path pem s')
            Keeps
            (update_certificate_object openssl chassis_id pem leaf s)
    unfolding update_certificate_object
    update-Post F chassis_id [] leaf s e k made = k
    update-Post F chassis_id (x ∷ pem) leaf s e k made = rw e (
      (leaf, made, ap some (publish-new_certificate s.certificate_object (x ∷ pem) leaf k)),
      refl,
    )

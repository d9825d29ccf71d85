-- ===== src/Integrity/Evidence/Replies.antt =====
-- What `method_call` answers, and what it leaves published.
use spdm_working.Common.{ℕ, ◌≡◌, ◌⊎◌, inl, inr, refl, List, Option, none, some, u8}
use spdm_working.Exceptions.{Result, ok, threw, unfinished}
use spdm_working.Exceptions.Action.{after, lift}
use spdm_working.Libspdm.{Libspdm, Algorithms}
use spdm_working.Certificate.{OpenSsl, new_certificate}
use spdm_working.Integrity.{Component, State, require_context}
use spdm_working.Integrity.Indices.{validate_measurement_indices}
use spdm_working.Integrity.Indices.Decision.{validate_measurement_indices-Decides}
use spdm_working.Integrity.Measurements.{get_signed_measurements}
use spdm_working.Integrity.Certificates.{
  initialize_spdm_connection, get_certificate_digests, get_certificate,
}
use spdm_working.Integrity.Evidence.{
  Evidence, failure, caught, describe, after_publication, after_measurements, after_certificate,
  after_digests, after_validation, method_call, try_method_call, update_certificate_object,
  certificate_path_of,
}
use spdm_working.Integrity.Evidence.Requests.{
  Post, Post-after, Keeps, Kept, FindsCertificates, MeasuresBytes, Fetched, KeptWith,
  require_context-Post, initialize-Post, digests-Post, get_certificate-Post,
  get_signed_measurements-Post, Published, update-Post,
}

module _ {D : Type 0} (lib : Libspdm D) (path : List ℕ) (openssl : OpenSsl) where
  validate-Post :
      (indices : List ℕ) (s : State D)
      → (Keeps lib path) s
      → Post (Kept lib path) (Keeps lib path) (lift (validate_measurement_indices indices) s)
  validate-Post indices s k = elim (validate_measurement_indices-Decides indices) [
    | inl (e, fine) ↦ rw e k
    | inr (e, bad) ↦ rw e k
  ]

  Published-Keeps :
      (F : List ℕ → List ℕ → Type 0) (reply_path pem : List ℕ) (s : State D)
      → Published lib path openssl F reply_path pem s
      → (Keeps lib path) s
  unfolding new_certificate
  Published-Keeps F reply_path pem s ((leaf, made, e), reply) = rw e refl

  -- A reply, with the state that it leaves: there is one, the published certificate stands at the
  -- path, and the reply is the one of a failure, or names that certificate, which shows what a
  -- constructor would show of the reply's chain and its leaf, as the device answered them.
  abbrev pub Reply : Component → ℕ → Option Evidence × State D → Type 0
  Reply c slot_id (none, s) = ⊥
  Reply c slot_id (some e, s) =
      (Keeps lib path) s
      × ((e ≡ failure c)
          ⊎ Published lib path openssl (Fetched lib path c (u8 slot_id)) e.certificate_path
              e.public_key s)

  caught-Reply :
      (c : Component) (slot_id : ℕ) (r : Result Evidence × State D)
      → Post
          (λ e s'.
            Published lib path openssl
              (Fetched lib path c (u8 slot_id))
              e.certificate_path
              e.public_key
              s')
          (Keeps lib path)
          r
      → Reply c slot_id (caught (failure c) r)
  caught-Reply c slot_id (ok e, s) p =
      (Published-Keeps (Fetched lib path c (u8 slot_id)) _ _ s p, inr p)
  caught-Reply c slot_id (threw x, s) p = (p, inl refl)
  caught-Reply c slot_id (unfinished, s) p = absurd p

  module _ (algorithms : Algorithms) (filename : List ℕ → List ℕ)
      (finds : (FindsCertificates lib path)) (slot_id : ℕ)
      (law : MeasuresBytes lib path (u8 slot_id)) (c : Component)
      (at : certificate_path_of (filename c.path) ≡ path) where
    abbrev From : List ℕ → List ℕ → Type 0
    From = Fetched lib path c (u8 slot_id)

    abbrev Answered : Evidence → State D → Type 0
    Answered e s = Published lib path openssl From e.certificate_path e.public_key s

    publication-Post :
        (pem meas reply_path : List ℕ) (s : State D)
        → Published lib path openssl From reply_path pem s
        → Post Answered
            (Keeps lib path)
            (after_publication lib openssl algorithms filename c pem meas reply_path s)
    unfolding after_publication describe
    publication-Post pem meas reply_path s p =
        Post-after (λ t s'. Published lib path openssl From reply_path pem s') Answered
          (Keeps lib path) (require_context c.transport s)
          (describe lib openssl algorithms filename c pem meas reply_path)
          (require_context-Post lib path (Published lib path openssl From reply_path pem)
            c.transport s p (Published-Keeps From reply_path pem s p))
          (λ t s p. p)

    measurements-Post :
        (certs : List ℕ × List ℕ × List ℕ) (meas : List ℕ) (s : State D)
        → (Keeps lib path) s
        → From certs.0 certs.2
        → Post Answered
            (Keeps lib path)
            (after_measurements lib openssl algorithms filename c certs meas s)
    unfolding after_measurements
    measurements-Post certs meas s k made =
        Post-after (λ reply_path s'. Published lib path openssl From reply_path certs.0 s') Answered
          (Keeps lib path) (update_certificate_object openssl (filename c.path) certs.0 certs.2 s)
          (after_publication lib openssl algorithms filename c certs.0 meas)
          (update-Post lib path openssl From (filename c.path) certs.0 certs.2 s at k made)
          (publication-Post certs.0 meas)

    module _ (indices nonce : List ℕ) where
      certificate-Post :
          (certs : List ℕ × List ℕ × List ℕ) (s : State D)
          → KeptWith lib path From certs s
          → Post Answered
              (Keeps lib path)
              (after_certificate lib openssl algorithms filename c indices nonce slot_id certs s)
      unfolding after_certificate
      certificate-Post certs s (k, made) =
          Post-after (Kept lib path) Answered (Keeps lib path)
            (get_signed_measurements lib c indices nonce slot_id s)
            (after_measurements lib openssl algorithms filename c certs)
            (get_signed_measurements-Post lib path slot_id law c indices nonce s k)
            (λ meas s' k'. measurements-Post certs meas s' k' made)

      after_digests-Post :
          (digests : ℕ × List ℕ × ℕ) (s : State D)
          → (Keeps lib path) s
          → Post Answered
              (Keeps lib path)
              (after_digests lib openssl algorithms filename c indices nonce slot_id digests s)
      unfolding after_digests
      after_digests-Post digests s k =
          Post-after (KeptWith lib path From) Answered (Keeps lib path)
            (get_certificate lib c slot_id s)
            (after_certificate lib openssl algorithms filename c indices nonce slot_id)
            (get_certificate-Post lib path finds c slot_id s k) certificate-Post

      connected-Post :
          (u : Unit {0}) (s : State D)
          → (Keeps lib path) s
          → Post Answered (Keeps lib path) (
              after
                (get_certificate_digests lib c s)
                (after_digests lib openssl algorithms filename c indices nonce slot_id))
      connected-Post u s k =
          Post-after (Kept lib path) Answered (Keeps lib path) (get_certificate_digests lib c s)
            (after_digests lib openssl algorithms filename c indices nonce slot_id)
            (digests-Post lib path c s k) after_digests-Post

      validation-Post :
          (u : Unit {0}) (s : State D)
          → (Keeps lib path) s
          → Post Answered
              (Keeps lib path)
              (after_validation lib openssl algorithms filename c indices nonce slot_id u s)
      unfolding after_validation
      validation-Post u s k =
          Post-after (Kept lib path) Answered (Keeps lib path) (initialize_spdm_connection lib c s)
            (λ _ s.
              after (get_certificate_digests lib c s)
                (after_digests lib openssl algorithms filename c indices nonce slot_id))
            (initialize-Post lib path c s k) connected-Post

      try_method_call-Post :
          (s : State D)
          → (Keeps lib path) s
          → Post Answered
              (Keeps lib path)
              (try_method_call lib openssl algorithms filename c indices nonce slot_id s)
      unfolding try_method_call
      try_method_call-Post s k =
          Post-after (Kept lib path) Answered (Keeps lib path)
            (lift (validate_measurement_indices indices) s)
            (after_validation lib openssl algorithms filename c indices nonce slot_id)
            (validate-Post indices s k) validation-Post

    -- Where the library finds certificates of bytes only and none that is empty, and measurement
    -- records are bytes: the method answers every request. From a state whose certificate object,
    -- if there is one, stands at the device's path, it leaves such a state; its answer is the
    -- empty one of a failure, or names the published certificate, which shows what a constructor
    -- would show of the answer's chain and its leaf, which are the PEM text and the last certificate of
    -- the chain that the device of the component's transport answered for the slot.
    pub method_call-Reply :
        (indices nonce : List ℕ) (s : State D)
        → (Keeps lib path) s
        → Reply c slot_id (method_call lib openssl algorithms filename c indices nonce slot_id s)
    unfolding method_call
    method_call-Reply indices nonce s k =
        caught-Reply c slot_id _ (try_method_call-Post indices nonce s k)

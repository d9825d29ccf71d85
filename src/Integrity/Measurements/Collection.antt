-- ===== src/Integrity/Measurements/Collection.antt =====
-- What `getSignedMeasurements` collects, and when it gives up.
use spdm_working.Common.{
  ℕ, ◌≡◌, ◌≢◌, refl, sym, subst, ap, ◌∙◌, List, [], ◌∷◌, ◌++◌, some, u8, true, false, IsBytes,
  IsBytes-append, Bool-cases, append_assoc, append-nil, arith, ℕ_discrete, inl, inr,
}
use spdm_working.Exceptions.{Result, ok, threw, runtime_error}
use spdm_working.Exceptions.Action.{from_option, after}
use spdm_working.Base64.{base64_encode}
use spdm_working.Libspdm.{Libspdm, Status, context_of}
use spdm_working.Base64.Loop.{base64_encode-encoding}
use spdm_working.Base64.Reference.{encoding}
use spdm_working.Integrity.{Component, State, require_context-present}
use spdm_working.Integrity.Measurements.{
  indices_to_process, process_measurement_data, get_single_measurement, collect,
  get_signed_measurements,
}

abbrev pub at_device : {D : Type 0} → State D → D → State D
at_device s d = record s { world = record s.world { device = d } }

processed_zero :
    (answer all bytes : List ℕ) → process_measurement_data 0 answer all ++ bytes ≡ all ++ bytes
unfolding process_measurement_data
processed_zero answer all bytes = refl

processed_other :
    (idx : ℕ) (answer all bytes : List ℕ)
    → idx ≢ 0
    → process_measurement_data idx answer all ++ bytes ≡ all ++ (answer ++ bytes)
unfolding process_measurement_data
processed_other idx answer all bytes h = ground (arith, append_assoc all answer bytes)

module _ {D : Type 0} (lib : Libspdm D) (t slot_id : ℕ) where
  -- One request without a signature for each index, in order, each answered without an error; the
  -- records of all indices but 0, one after the other.
  pub data Measured : List ℕ → D → D → List ℕ → Type 0 where
    none_left : {d : D} → Measured [] d d []
    count_read :
        {rest bytes answer : List ℕ} {d d' d'' : D} {idx : ℕ} {status : Status} {blocks : ℕ}
        → idx ≡ 0
        → lib.get_measurement t 0 (u8 idx) (u8 slot_id) d ≡ ((status, blocks, answer), d')
        → lib.is_error status ≡ false
        → Measured rest d' d'' bytes
        → Measured (idx ∷ rest) d d'' bytes
    block_read :
        {rest bytes answer : List ℕ} {d d' d'' : D} {idx : ℕ} {status : Status} {blocks : ℕ}
        → idx ≢ 0
        → lib.get_measurement t 0 (u8 idx) (u8 slot_id) d ≡ ((status, blocks, answer), d')
        → lib.is_error status ≡ false
        → Measured rest d' d'' bytes
        → Measured (idx ∷ rest) d d'' (answer ++ bytes)

  -- Some index was answered with an error, and no request was sent after it.
  pub data GaveUp : List ℕ → D → D → Type 0 where
    refused :
        {rest answer : List ℕ} {d d' : D} {status : Status} {blocks idx : ℕ}
        → lib.get_measurement t 0 (u8 idx) (u8 slot_id) d ≡ ((status, blocks, answer), d')
        → lib.is_error status ≡ true
        → GaveUp (idx ∷ rest) d d'
    refused_later :
        {rest answer : List ℕ} {d d' d'' : D} {status : Status} {blocks idx : ℕ}
        → lib.get_measurement t 0 (u8 idx) (u8 slot_id) d ≡ ((status, blocks, answer), d')
        → lib.is_error status ≡ false
        → GaveUp rest d' d''
        → GaveUp (idx ∷ rest) d d''

  -- The two outcomes for a list of indices, where `make` is applied to the bytes.
  pub data Outcome (make : List ℕ → List ℕ) (indices : List ℕ) (s : State D)
      : Result (List ℕ) × State D → Type 0 where
    measured :
        {bytes text : List ℕ} {d : D}
        → Measured indices s.world.device d bytes
        → text ≡ make bytes
        → Outcome make indices s (ok text, at_device s d)
    gave_up :
        {d : D}
        → GaveUp indices s.world.device d
        → Outcome make indices s
            (threw (runtime_error "Failed to get signed measurements"), at_device s d)

  after_one :
      (idx : ℕ) (rest all answer : List ℕ) (s : State D) (d : D) {status : Status} {blocks : ℕ}
      → lib.get_measurement t 0 (u8 idx) (u8 slot_id) s.world.device ≡ ((status, blocks, answer), d)
      → lib.is_error status ≡ false
      → (r : Result (List ℕ) × State D)
      → Outcome (◌++◌ (process_measurement_data idx answer all)) rest (at_device s d) r
      → Outcome (◌++◌ all) (idx ∷ rest) s r
  after_one idx rest all answer s d e good r (measured {bytes} m eq) = elim (ℕ_discrete idx 0) [
    | yes zero_index ↦ measured (count_read zero_index e good m) (
        eq
        ∙ ap (λ i. process_measurement_data i answer all ++ bytes) zero_index
        ∙ processed_zero answer all bytes)
    | no other_index ↦
        measured (block_read other_index e good m)
          (eq ∙ processed_other idx answer all bytes other_index)
  ]
  after_one idx rest all answer s d e good r (gave_up g) = gave_up (refused_later e good g)

  module _ (idx : ℕ) (s : State D) where
    abbrev answer_of : (Status × ℕ × List ℕ) × D
    answer_of = lib.get_measurement t 0 (u8 idx) (u8 slot_id) s.world.device

    get_single_measurement-error :
        lib.is_error answer_of.0.0 ≡ true
        → get_single_measurement lib t idx slot_id s
          ≡ (threw (runtime_error "Failed to get signed measurements"), at_device s answer_of.1)
    unfolding get_single_measurement
    get_single_measurement-error e = rw e refl

    get_single_measurement-success :
        lib.is_error answer_of.0.0 ≡ false
        → get_single_measurement lib t idx slot_id s ≡ (ok answer_of.0.2, at_device s answer_of.1)
    unfolding get_single_measurement
    get_single_measurement-success e = rw e refl

  pub collect-Outcome :
      (indices all : List ℕ) (s : State D)
      → Outcome (◌++◌ all) indices s (collect lib t slot_id indices all s)
  unfolding collect
  collect-Outcome [] all s = measured none_left (sym (append-nil all))
  collect-Outcome (idx ∷ rest) all s = elim (Bool-cases (lib.is_error (answer_of idx s).0.0)) [
    | inl bad ↦ rw (get_single_measurement-error idx s bad) (gave_up (refused refl bad))
    | inr good ↦
        rw (get_single_measurement-success idx s good)
          (after_one idx rest all _ s _ refl good _ (collect-Outcome rest _ _))
  ]

  -- Where measurement records are bytes: the requests' bytes are too.
  Measured-IsBytes :
      ((operation : ℕ) (d : D) → IsBytes (lib.get_measurement t 0 operation (u8 slot_id) d).0.2)
      → {indices bytes : List ℕ} {d d' : D} → Measured indices d d' bytes
      → IsBytes bytes
  Measured-IsBytes law none_left = tt
  Measured-IsBytes law (count_read zero_index e good m) = Measured-IsBytes law m
  Measured-IsBytes law (block_read {bytes} {answer} {d} {idx} other e good m) =
      IsBytes-append answer bytes (subst (λ r. IsBytes r.0.2) e (law (u8 idx) d))
        (Measured-IsBytes law m)

  abbrev pub after_collected : Result (List ℕ) × State D → Result (List ℕ) × State D
  after_collected r = after r (λ all_measurements. from_option (base64_encode all_measurements))

  pub encoded :
      ((operation : ℕ) (d : D) → IsBytes (lib.get_measurement t 0 operation (u8 slot_id) d).0.2)
      → (indices : List ℕ) (s : State D) (r : Result (List ℕ) × State D)
      → Outcome (◌++◌ []) indices s r
      → Outcome encoding indices s (after_collected r)
  encoded law indices s r (measured {bytes} m eq) =
      rw (eq, base64_encode-encoding bytes (Measured-IsBytes law m)) (measured m refl)
  encoded law indices s r (gave_up g) = gave_up g

  -- Where measurement records are bytes, and with a transport and its context: the text returned
  -- is the RFC 4648 encoding of the records of all indices asked for but 0, in order, each answered
  -- to one request without a signature (255 alone is asked for when no index is given). It throws
  -- `Failed to get signed measurements` where the device answered some request with an error, and
  -- sends none after that.
  pub get_signed_measurements-Outcome :
      ((operation : ℕ) (d : D) → IsBytes (lib.get_measurement t 0 operation (u8 slot_id) d).0.2)
      → (component : Component) (indices nonce : List ℕ) (s : State D)
      → component.transport ≡ some t
      → context_of t s.world ≡ true
      → Outcome encoding
          (indices_to_process indices)
          s
          (get_signed_measurements lib component indices nonce slot_id s)
  unfolding get_signed_measurements
  get_signed_measurements-Outcome law component indices nonce s e c =
      rw (require_context-present component.transport t s e c) (
        encoded law (indices_to_process indices) s _
          (collect-Outcome (indices_to_process indices) [] s))

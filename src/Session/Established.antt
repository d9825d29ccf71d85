-- ===== src/Session/Established.antt =====
-- What `start` has done when the session is active.
use spdm_working.Common.{
  ℕ, ◌≡◌, ◌≢◌, refl, bit_and, ◌<<◌, List, Bool, true, false, arith, Bool-cases, inl, inr,
  if◌then◌else◌,
}
use spdm_working.Libspdm.{Libspdm, Status, success, invalid_parameter, World, context_of}
use spdm_working.Session.{
  SpdmSession, fetch_peer_cert, peer_cert_for, start_exchange, start, slot_is_empty,
}

abbrev pub world_at : {D : Type 0} → World D → D → World D
world_at w d = record w { device = d }

module _ {D : Type 0} (lib : Libspdm D) where
  -- The certificate of the slot was fetched: the device has one there, and both calls succeeded.
  pub data Fetched (t slot_id : ℕ) : D → D → Type 0 where
    fetched :
        {d d' d'' : D} {st st' : Status} {slot_mask : ℕ} {digests chain : List ℕ}
        → lib.get_digest t d ≡ ((st, slot_mask, digests), d')
        → lib.is_error st ≡ false
        → bit_and slot_mask (1 << slot_id) ≢ 0
        → lib.get_certificate t slot_id d' ≡ ((st', chain), d'')
        → lib.is_error st' ≡ false
        → Fetched t slot_id d d''

  -- Why it was not: a call failed, or the device has no certificate in the slot.
  pub data Unfetched (t slot_id : ℕ) (d : D) : Status → Type 0 where
    no_digests :
        lib.is_error (lib.get_digest t d).0.0 ≡ true
        → Unfetched t slot_id d (lib.get_digest t d).0.0
    empty_slot :
        lib.is_error (lib.get_digest t d).0.0 ≡ false
        → bit_and (lib.get_digest t d).0.1 (1 << slot_id) ≡ 0
        → Unfetched t slot_id d invalid_parameter
    no_certificate :
        lib.is_error (lib.get_digest t d).0.0 ≡ false
        → bit_and (lib.get_digest t d).0.1 (1 << slot_id) ≢ 0
        → lib.is_error (lib.get_certificate t slot_id (lib.get_digest t d).1).0.0 ≡ true
        → Unfetched t slot_id d (lib.get_certificate t slot_id (lib.get_digest t d).1).0.0

  -- What precedes the exchange of keys: nothing with a pre-shared key.
  pub data Ready (t slot_id : ℕ) : Bool → D → D → Type 0 where
    with_psk : {d : D} → Ready t slot_id true d d
    with_cert : {d d' : D} → Fetched t slot_id d d' → Ready t slot_id false d d'

  -- Why a session is not started, with the status.
  pub data Unstarted (slot_id meas_hash_type session_policy t : ℕ) (use_psk : Bool) (w : World D)
      : Status → Type 0 where
    no_context :
        context_of t w ≡ false
        → Unstarted slot_id meas_hash_type session_policy t use_psk w invalid_parameter
    not_ready :
        {st : Status}
        → context_of t w ≡ true
        → use_psk ≡ false
        → Unfetched t slot_id w.device st
        → Unstarted slot_id meas_hash_type session_policy t use_psk w st
    no_exchange :
        {d : D}
        → context_of t w ≡ true
        → Ready t slot_id use_psk w.device d
        → lib.is_error (lib.start_session t use_psk meas_hash_type slot_id session_policy d).0.0
          ≡ true
        → Unstarted slot_id meas_hash_type session_policy t use_psk w
            (lib.start_session t use_psk meas_hash_type slot_id session_policy d).0.0

  -- The outcomes of `start` for a session that is not active. When it succeeds there was a context, the certificate was
  -- fetched, unless a pre-shared key is used, before the exchange of keys, whose identifier and
  -- period the session has. Otherwise its status is the error of what is missing, and the session is not active.
  pub data Started (slot_id meas_hash_type session_policy : ℕ) (use_psk : Bool)
      (session : SpdmSession) (w : World D) : Status × SpdmSession × World D → Type 0 where
    established :
        {d d' : D} {st : Status} {id period : ℕ}
        → context_of session.transport w ≡ true
        → Ready session.transport slot_id use_psk w.device d
        → lib.start_session session.transport use_psk meas_hash_type slot_id session_policy d
          ≡ ((st, id, period), d')
        → lib.is_error st ≡ false
        → Started slot_id meas_hash_type session_policy use_psk session w (
          success,
          record session { id = id; hb_period = period; is_active = true },
          world_at w d',
        )
    failed :
        {st : Status} {session' : SpdmSession} {w' : World D}
        → lib.is_error st ≡ true
        → Unstarted slot_id meas_hash_type session_policy session.transport use_psk w st
        → session'.is_active ≡ false
        → Started slot_id meas_hash_type session_policy use_psk session w (st, session', w')

  empty :
      (slot_mask slot_id : ℕ)
      → slot_is_empty slot_mask slot_id ≡ true
      → bit_and slot_mask (1 << slot_id) ≡ 0
  unfolding slot_is_empty
  empty slot_mask slot_id e = ground arith

  full :
      (slot_mask slot_id : ℕ)
      → slot_is_empty slot_mask slot_id ≡ false
      → bit_and slot_mask (1 << slot_id) ≢ 0
  unfolding slot_is_empty
  full slot_mask slot_id e = ground arith

  -- Fetching succeeds with what `Fetched` says, or its status is an error.
  data Fetch (t slot_id : ℕ) (w : World D) : Status × World D → Type 0 where
    fetch_done : {d : D} → Fetched t slot_id w.device d → Fetch t slot_id w (success, world_at w d)
    fetch_failed :
        {st : Status} {w' : World D}
        → lib.is_error st ≡ true
        → Unfetched t slot_id w.device st
        → Fetch t slot_id w (st, w')

  fetch_peer_cert-Fetch :
      (t slot_id : ℕ) (w : World D) → Fetch t slot_id w (fetch_peer_cert lib t slot_id w)
  unfolding fetch_peer_cert
  fetch_peer_cert-Fetch t slot_id w =
      let digest = lib.get_digest t w.device in
      let cert = lib.get_certificate t slot_id digest.1 in
      elim (Bool-cases (lib.is_error digest.0.0)) [
        | inl bad ↦ rw bad (fetch_failed bad (no_digests bad))
        | inr good ↦ rw good (elim (Bool-cases (slot_is_empty digest.0.1 slot_id)) [
          | inl none_there ↦ rw none_there (
              fetch_failed lib.invalid_parameter_is_one
                (empty_slot good (empty digest.0.1 slot_id none_there)))
          | inr full_slot ↦ rw full_slot (elim (Bool-cases (lib.is_error cert.0.0)) [
            | inl bad ↦
                rw bad
                  (fetch_failed bad (no_certificate good (full digest.0.1 slot_id full_slot) bad))
            | inr good' ↦
                rw good'
                  (fetch_done (fetched refl good (full digest.0.1 slot_id full_slot) refl good'))
          ])
        ])
      ]

  data Prepared (use_psk : Bool) (t slot_id : ℕ) (w : World D) : Status × World D → Type 0 where
    prepared :
        {d : D} {st : Status}
        → lib.is_error st ≡ false
        → Ready t slot_id use_psk w.device d
        → Prepared use_psk t slot_id w (st, world_at w d)
    not_prepared :
        {st : Status} {w' : World D}
        → lib.is_error st ≡ true
        → use_psk ≡ false
        → Unfetched t slot_id w.device st
        → Prepared use_psk t slot_id w (st, w')

  Fetch-Prepared :
      (t slot_id : ℕ) (w : World D) (r : Status × World D)
      → Fetch t slot_id w r
      → Prepared false t slot_id w r
  Fetch-Prepared t slot_id w r (fetch_done f) = prepared lib.success_is_none (with_cert f)
  Fetch-Prepared t slot_id w r (fetch_failed e u) = not_prepared e refl u

  peer_cert_for-Prepared :
      (use_psk : Bool) (t slot_id : ℕ) (w : World D)
      → Prepared use_psk t slot_id w (peer_cert_for lib use_psk t slot_id w)
  unfolding peer_cert_for
  peer_cert_for-Prepared true t slot_id w = prepared lib.success_is_none with_psk
  peer_cert_for-Prepared false t slot_id w =
      Fetch-Prepared t slot_id w _ (fetch_peer_cert-Fetch t slot_id w)

  module _ (slot_id meas_hash_type session_policy : ℕ) (use_psk : Bool) (session : SpdmSession)
      (inactive : session.is_active ≡ false) where
    exchange-Started :
        (w : World D) (d : D)
        → context_of session.transport w ≡ true
        → Ready session.transport slot_id use_psk w.device d
        → Started slot_id meas_hash_type session_policy use_psk session w (
            start_exchange lib slot_id meas_hash_type session_policy use_psk session (world_at w d))
    unfolding start_exchange
    exchange-Started w d present ready =
        let answer =
          lib.start_session session.transport use_psk meas_hash_type slot_id session_policy d in
        elim (Bool-cases (lib.is_error answer.0.0)) [
          | inl bad ↦ rw bad (failed bad (no_exchange present ready bad) inactive)
          | inr good ↦ rw good (established present ready refl good)
        ]

    abbrev go_on : Status × World D → Status × SpdmSession × World D
    go_on r =
        if lib.is_error r.0
        then (r.0, session, r.1)
        else start_exchange lib slot_id meas_hash_type session_policy use_psk session r.1

    go_on-Started :
        (w : World D) (r : Status × World D)
        → context_of session.transport w ≡ true
        → Prepared use_psk session.transport slot_id w r
        → Started slot_id meas_hash_type session_policy use_psk session w (go_on r)
    go_on-Started w r present (prepared good ready) = rw good (exchange-Started w _ present ready)
    go_on-Started w r present (not_prepared bad cert u) =
        rw bad (failed bad (not_ready present cert u) inactive)

    start-go_on :
        (w : World D)
        → context_of session.transport w ≡ true
        → start lib slot_id meas_hash_type session_policy use_psk session w
          ≡ go_on (peer_cert_for lib use_psk session.transport slot_id w)
    unfolding start
    start-go_on w present = simp (present, inactive)

    start-no_context :
        (w : World D)
        → context_of session.transport w ≡ false
        → start lib slot_id meas_hash_type session_policy use_psk session w
          ≡ (invalid_parameter, session, w)
    unfolding start
    start-no_context w absent = simp absent

    -- From a session that is not active, `start` succeeds only with a context, after fetching the
    -- certificate of a slot that the device has (unless a pre-shared key is used), and by an
    -- exchange of keys that the device answered without an error; then the session is active with
    -- that answer's identifier and period. Otherwise the session is not active, and the
    -- status is the error of what is missing.
    pub start-Started :
        (w : World D)
        → Started slot_id meas_hash_type session_policy use_psk session w
            (start lib slot_id meas_hash_type session_policy use_psk session w)
    start-Started w = elim (Bool-cases (context_of session.transport w)) [
      | inl present ↦
          rw (start-go_on w present)
            (go_on-Started w _ present (peer_cert_for-Prepared use_psk session.transport slot_id w))
      | inr absent ↦
          rw (start-no_context w absent)
            (failed lib.invalid_parameter_is_one (no_context absent) inactive)
    ]

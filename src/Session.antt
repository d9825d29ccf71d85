-- ===== src/Session.antt =====
-- `SpdmSession` of requester/spdm_session.cpp: one secure session on a transport.
pub mod Lifecycle
pub mod Established
pub mod Kept
mod Examples
use spdm_working.Common.{ℕ, List, [], bit_and, ◌<<◌, Bool, true, false, not, ◌==◌, if◌then◌else◌}
use spdm_working.Libspdm.{
  Libspdm, Status, success, invalid_parameter, invalid_state_local, World, context_of, call,
  call_for, unless_error,
}

pub record SpdmSession : Type 0 where
  pub transport : ℕ
  pub id : ℕ
  pub hb_period : ℕ
  pub is_active : Bool

-- The constructor.
unfoldable pub new_session : ℕ → SpdmSession
new_session t = record { transport = t; id = 0; hb_period = 0; is_active = false }

-- The mask has no bit for the slot.
unfoldable pub slot_is_empty : ℕ → ℕ → Bool
slot_is_empty slot_mask slot_id = bit_and slot_mask (1 << slot_id) == 0

module _ {D : Type 0} (lib : Libspdm D) where
  unfoldable pub fetch_peer_cert : ℕ → ℕ → World D → Status × World D
  fetch_peer_cert t slot_id w =
      let r = call_for (lib.get_digest t) w in
      unless_error lib.is_error (r.0.0, r.1)
        (λ w.
          if slot_is_empty r.0.1 slot_id
          then (invalid_parameter, w)
          else let c = call_for (lib.get_certificate t slot_id) w in
            unless_error lib.is_error (c.0.0, c.1) (λ w. (success, w)))

  -- The exchange of keys, and what `start` does with its answer.
  unfoldable pub start_exchange :
      ℕ → ℕ → ℕ → Bool → SpdmSession → World D → Status × SpdmSession × World D
  start_exchange slot_id meas_hash_type session_policy use_psk session w =
      let r =
        call_for (lib.start_session session.transport use_psk meas_hash_type slot_id session_policy)
          w in
      let started = record session { id = r.0.1; hb_period = r.0.2 } in
      if lib.is_error r.0.0
      then (r.0.0, started, r.1)
      else (success, record started { is_active = true }, r.1)

  -- The certificate is fetched unless a pre-shared key is used.
  unfoldable pub peer_cert_for : Bool → ℕ → ℕ → World D → Status × World D
  unfolding fetch_peer_cert
  peer_cert_for use_psk t slot_id w = if use_psk then (success, w) else fetch_peer_cert t slot_id w

  unfoldable pub start : ℕ → ℕ → ℕ → Bool → SpdmSession → World D → Status × SpdmSession × World D
  start slot_id meas_hash_type session_policy use_psk session w =
      if not (context_of session.transport w)
      then (invalid_parameter, session, w)
      else if session.is_active
      then (success, session, w)
      else let r = peer_cert_for use_psk session.transport slot_id w in
        if lib.is_error r.0
        then (r.0, session, r.1)
        else start_exchange slot_id meas_hash_type session_policy use_psk session r.1

  unfoldable pub stop : ℕ → SpdmSession → World D → Status × SpdmSession × World D
  stop end_attrs session w =
      if not session.is_active
      then (success, session, w)
      else let r = call (lib.stop_session session.transport session.id end_attrs) w in
        (r.0, record session { is_active = false }, r.1)

  unfoldable pub heartbeat : SpdmSession → World D → Status × World D
  heartbeat session w =
      if not session.is_active
      then (invalid_state_local, w)
      else call (lib.heartbeat session.transport session.id) w

  unfoldable pub key_update : Bool → SpdmSession → World D → Status × World D
  key_update single_direction session w =
      if not session.is_active
      then (invalid_state_local, w)
      else call (lib.key_update session.transport session.id single_direction) w

  -- The request, the capacity for the response; the response.
  unfoldable pub send : List ℕ → ℕ → SpdmSession → World D → (Status × List ℕ) × World D
  send req capacity session w =
      if not session.is_active
      then ((invalid_state_local, []), w)
      else call_for (lib.send_receive_data session.transport session.id req capacity) w

  -- The destructor.
  unfoldable pub destroy : SpdmSession → World D → World D
  unfolding stop
  destroy session w = if session.is_active then (stop 0 session w).2 else w

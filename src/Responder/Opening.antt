-- ===== src/Responder/Opening.antt =====
-- What `openSecureSession` has done when it succeeds.
use spdm_working.Common.{
  ℕ, ◌≡◌, refl, subst, sym, Option, none, some, Bool, true, false, Bool-cases, inl, inr, ◌⊎◌,
  if◌then◌else◌,
}
use spdm_working.Libspdm.{Libspdm, Status, success, World, Algorithms}
use spdm_working.Session.{SpdmSession, new_session}
use spdm_working.Session.Established.{Started, Unstarted, established, failed, start-Started}
use spdm_working.Config.{SecureSessionConfig, Files, install_peer_root_cert}
use spdm_working.Responder.{
  Responder, session_is_active, secure_session_active, session_on, with_session, open_session,
  open_on, open_secure_session,
}

session_on-inactive :
    (t : ℕ) (session : Option SpdmSession)
    → session_is_active session ≡ false
    → (session_on t session).is_active ≡ false
unfolding new_session
session_on-inactive t none e = refl
session_on-inactive t (some session) e = e

module _ {D : Type 0} (lib : Libspdm D) (algorithms : Algorithms) (files : Files)
    (cfg : SecureSessionConfig) (slot_id t : ℕ) where
  -- The outcomes on a transport. The session is started only after the trust anchor's installation
  -- returned no error, and by `start` from there.
  pub data Opened (r : Responder) (w : World D) : Status × Responder × World D → Type 0 where
    opened :
        {session : SpdmSession} {w' : World D}
        → lib.is_error (install_peer_root_cert lib algorithms files t cfg w).0 ≡ false
        → Started lib slot_id algorithms.no_measurement_summary_hash 0 false
            (session_on t r.session)
            (install_peer_root_cert lib algorithms files t cfg w).1
            (success, session, w')
        → session.is_active ≡ true
        → Opened r w (success, record r { session = some session }, w')
    not_opened :
        {st : Status} {r' : Responder} {w' : World D}
        → lib.is_error st ≡ true
        → ((st ≡ (install_peer_root_cert lib algorithms files t cfg w).0)
            ⊎ ((lib.is_error (install_peer_root_cert lib algorithms files t cfg w).0 ≡ false)
                × Unstarted lib slot_id algorithms.no_measurement_summary_hash 0
                    (session_on t r.session).transport
                    false
                    (install_peer_root_cert lib algorithms files t cfg w).1
                    st))
        → secure_session_active r' ≡ false
        → Opened r w (st, r', w')

  started-Opened :
      (r : Responder) (w : World D) (result : Status × SpdmSession × World D)
      → lib.is_error (install_peer_root_cert lib algorithms files t cfg w).0 ≡ false
      → Started lib slot_id algorithms.no_measurement_summary_hash 0 false
          (session_on t r.session)
          (install_peer_root_cert lib algorithms files t cfg w).1
          result
      → Opened r w (with_session r result)
  started-Opened r w result good (established present ready answer fine) =
      opened good (established present ready answer fine) refl
  started-Opened r w result good (failed bad why inactive) =
      not_opened bad (inr (good, why)) inactive

  open_session-Opened :
      (r : Responder) (w : World D)
      → secure_session_active r ≡ false
      → lib.is_error (install_peer_root_cert lib algorithms files t cfg w).0 ≡ false
      → Opened r w (
          open_session lib algorithms files t slot_id r
            (install_peer_root_cert lib algorithms files t cfg w).1)
  unfolding open_session
  open_session-Opened r w off good =
      subst (Opened r w) (sym (taken (session_on t r.session).is_active _ _ inactive)) (
        started-Opened r w _ good (
          start-Started lib slot_id algorithms.no_measurement_summary_hash 0 false
            (session_on t r.session) inactive _))
    where
      inactive : (session_on t r.session).is_active ≡ false
      inactive = session_on-inactive t r.session off

      taken : {A : Type 0} (b : Bool) (x y : A) → b ≡ false → (if b then x else y) ≡ y
      taken b x y e = rw e refl

  open_on-Opened :
      (r : Responder) (w : World D)
      → secure_session_active r ≡ false
      → Opened r w (open_on lib algorithms files (some t) cfg slot_id r w)
  open_on-Opened r w off =
      elim (Bool-cases (lib.is_error (install_peer_root_cert lib algorithms files t cfg w).0)) [
        | inl bad ↦ rw bad (not_opened bad (inl refl) off)
        | inr good ↦ rw good (open_session-Opened r w off good)
      ]

  -- For a responder with a transport and no active session: the call succeeds, and leaves an active
  -- session, only when the trust anchor's installation returned no error and the session was then
  -- established from the state that it left; otherwise its status is the error of the
  -- installation or of what `start` missed, and no session is active.
  pub open_secure_session-Opened :
      (r : Responder) (w : World D)
      → r.transport ≡ some t
      → secure_session_active r ≡ false
      → Opened r w (open_secure_session lib algorithms files cfg slot_id r w)
  unfolding open_secure_session
  open_secure_session-Opened r w on off =
      subst (λ o. Opened r w (open_on lib algorithms files o cfg slot_id r w)) (sym on)
        (open_on-Opened r w off)

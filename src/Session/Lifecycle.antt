-- ===== src/Session/Lifecycle.antt =====
-- What the operations of a session do by its state.
use spdm_working.Common.{ℕ, ◌≡◌, refl, List, [], Bool, false, arith}
use spdm_working.Libspdm.{Libspdm, success, invalid_state_local, World}
use spdm_working.Session.{SpdmSession, stop, heartbeat, key_update, send, destroy}

module _ {D : Type 0} (lib : Libspdm D) where
  inactive_silent :
      (again : ℕ) (session : SpdmSession) (w : World D) (single_direction : Bool) (req : List ℕ)
      (capacity : ℕ)
      → session.is_active ≡ false
      → (stop lib again session w ≡ (success, session, w))
        × (destroy lib session w ≡ w)
        × (heartbeat lib session w ≡ (invalid_state_local, w))
        × (key_update lib single_direction session w ≡ (invalid_state_local, w))
        × (send lib req capacity session w ≡ ((invalid_state_local, []), w))
  unfolding stop destroy heartbeat key_update send
  inactive_silent again session w single_direction req capacity e =
      ((rw e refl), (rw e refl), (rw e refl), (rw e refl), (rw e refl))

  pub stop-inactive :
      (end_attrs : ℕ) (session : SpdmSession) (w : World D)
      → (stop lib end_attrs session w).1.is_active ≡ false
  unfolding stop
  stop-inactive end_attrs session w = ground arith

  -- After `stop`, whatever the device answered, the session is not active: another `stop` and the
  -- destructor send nothing, and heartbeats, key updates and messages are refused as
  -- `INVALID_STATE_LOCAL` without anything being sent.
  pub stop-silent :
      (end_attrs again : ℕ) (session : SpdmSession) (w : World D) (single_direction : Bool)
      (req : List ℕ) (capacity : ℕ)
      → let (st, stopped, w') = stop lib end_attrs session w in
        (stopped.is_active ≡ false)
        × (stop lib again stopped w' ≡ (success, stopped, w'))
        × (destroy lib stopped w' ≡ w')
        × (heartbeat lib stopped w' ≡ (invalid_state_local, w'))
        × (key_update lib single_direction stopped w' ≡ (invalid_state_local, w'))
        × (send lib req capacity stopped w' ≡ ((invalid_state_local, []), w'))
  stop-silent end_attrs again session w single_direction req capacity =
      let off = stop-inactive end_attrs session w in
      let silent = inactive_silent again _ _ single_direction req capacity off in
      (off, silent.0, silent.1, silent.2, silent.3, silent.4)

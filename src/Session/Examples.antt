-- ===== src/Session/Examples.antt =====
-- Runs of a session, and the theorems at concrete inputs.
use spdm_working.Common.{◌≡◌, refl, [], ◌∷◌, true, false}
use spdm_working.Libspdm.{success, invalid_state_local}
use spdm_working.Libspdm.Demo.{demo, demo_world}
use spdm_working.Session.{
  SpdmSession, new_session, start, start_exchange, peer_cert_for, fetch_peer_cert, slot_is_empty,
  stop, heartbeat, key_update, send, destroy,
}
use spdm_working.Session.Established.{Started, start-Started}
use spdm_working.Session.Lifecycle.{stop-silent}

starts : (start demo 0 0 0 false (new_session 0) demo_world).1.id ≡ 5
unfolding start new_session peer_cert_for fetch_peer_cert start_exchange slot_is_empty
starts = refl

abbrev idle : SpdmSession
idle = record { transport = 0; id = 0; hb_period = 0; is_active = false }

abbrev busy : SpdmSession
busy = record { transport = 0; id = 5; hb_period = 2; is_active = true }

start-Started_example :
    Started demo 0 0 0 false idle demo_world (start demo 0 0 0 false idle demo_world)
start-Started_example = start-Started demo 0 0 0 false idle refl demo_world

stop-silent_example :
    let (st, stopped, w') = stop demo 0 busy demo_world in
    (stopped.is_active ≡ false)
    × (stop demo 1 stopped w' ≡ (success, stopped, w'))
    × (destroy demo stopped w' ≡ w')
    × (heartbeat demo stopped w' ≡ (invalid_state_local, w'))
    × (key_update demo true stopped w' ≡ (invalid_state_local, w'))
    × (send demo (1 ∷ []) 8 stopped w' ≡ ((invalid_state_local, []), w'))
stop-silent_example = stop-silent demo 0 1 busy demo_world true (1 ∷ []) 8

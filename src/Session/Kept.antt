-- ===== src/Session/Kept.antt =====
-- What the operations of a session keep of the world.
use spdm_working.Common.{ℕ, Bool, arith}
use spdm_working.Libspdm.{Libspdm, World, call_for}
use spdm_working.Libspdm.Kept.{Respects}
use spdm_working.Session.{
  SpdmSession, fetch_peer_cert, start_exchange, peer_cert_for, start, stop, heartbeat, destroy,
}

module _ {D : Type 0} (lib : Libspdm D) (P : World D → Type 0) where
  fetch_peer_cert-Kept :
      (t slot : ℕ) (respects : Respects lib P t) (w : World D)
      → P w
      → P (fetch_peer_cert lib t slot w).1
  unfolding fetch_peer_cert
  fetch_peer_cert-Kept t slot respects w p =
      let digests = respects.get_digest w p in
      let w' = (call_for (lib.get_digest t) w).1 in
      let certificate = respects.get_certificate slot w' digests in ground arith

  start_exchange-Kept :
      (slot hash policy : ℕ) (use_psk : Bool) (session : SpdmSession)
      (respects : Respects lib P session.transport) (w : World D)
      → P w
      → P (start_exchange lib slot hash policy use_psk session w).2
  unfolding start_exchange
  start_exchange-Kept slot hash policy use_psk session respects w p =
      let started = respects.start_session use_psk hash slot policy w p in ground arith

  peer_cert_for-Kept :
      (use_psk : Bool) (t slot : ℕ) (respects : Respects lib P t) (w : World D)
      → P w
      → P (peer_cert_for lib use_psk t slot w).1
  unfolding peer_cert_for
  peer_cert_for-Kept use_psk t slot respects w p =
      let fetched = fetch_peer_cert-Kept t slot respects w p in ground arith

  pub start-Kept :
      (slot hash policy : ℕ) (use_psk : Bool) (session : SpdmSession)
      (respects : Respects lib P session.transport) (w : World D)
      → P w
      → P (start lib slot hash policy use_psk session w).2
  unfolding start
  start-Kept slot hash policy use_psk session respects w p =
      let fetched = peer_cert_for-Kept use_psk session.transport slot respects w p in
      let w' = (peer_cert_for lib use_psk session.transport slot w).1 in
      let exchanged = start_exchange-Kept slot hash policy use_psk session respects w' fetched in
      ground arith

  pub stop-Kept :
      (attrs : ℕ) (session : SpdmSession) (respects : Respects lib P session.transport)
      (w : World D)
      → P w
      → P (stop lib attrs session w).2
  unfolding stop
  stop-Kept attrs session respects w p =
      let stopped = respects.stop_session session.id attrs w p in ground arith

  pub heartbeat-Kept :
      (session : SpdmSession) (respects : Respects lib P session.transport) (w : World D)
      → P w
      → P (heartbeat lib session w).1
  unfolding heartbeat
  heartbeat-Kept session respects w p =
      let beaten = respects.heartbeat session.id w p in ground arith

  pub destroy-Kept :
      (session : SpdmSession) (respects : Respects lib P session.transport) (w : World D)
      → P w
      → P (destroy lib session w)
  unfolding destroy
  destroy-Kept session respects w p = let stopped = stop-Kept 0 session respects w p in ground arith

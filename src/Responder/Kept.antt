-- ===== src/Responder/Kept.antt =====
-- What a responder's construction and the operations on its session keep of the world.
use spdm_working.Common.{
  ℕ, ◌≡◌, refl, sym, subst, Bool, Bool-cases, inl, inr, List, Option, none, some, false, arith,
}
use spdm_working.Exceptions.{Result, ok, threw, unfinished}
use spdm_working.Libspdm.{Libspdm, World, Algorithms}
use spdm_working.Libspdm.Kept.{Respects, RespectsOn}
use spdm_working.Integrity.{Component, State, require_context}
use spdm_working.Integrity.Certificates.{initialize_spdm_connection}
use spdm_working.Session.{SpdmSession, new_session, start, start_exchange}
use spdm_working.Session.Kept.{start-Kept, stop-Kept, heartbeat-Kept}
use spdm_working.Config.{SecureSessionConfig, Files, install_peer_root_cert}
use spdm_working.Config.Kept.{install_peer_root_cert-Kept}
use spdm_working.Responder.{
  ResponderInfo, Responder, session_on, constructed, members, new_responder, open_session, open_on,
  open_secure_session, close_secure_session, close_on, send_heartbeat, beat,
}

-- The calls for the transport of the session, if there is one, keep `P`.
abbrev pub Owned : {D : Type 0} → Libspdm D → (World D → Type 0) → Option SpdmSession → Type 0
Owned lib P none = Unit
Owned lib P (some session) = Respects lib P session.transport

module _ {D : Type 0} (lib : Libspdm D) (P : World D → Type 0) where
  connect_on-Kept :
      (t : Option ℕ) (component : Component) (s : State D)
      → component.transport ≡ t
      → RespectsOn lib P t
      → P s.world
      → P (initialize_spdm_connection lib component s).1.world
  unfolding initialize_spdm_connection require_context
  connect_on-Kept none component s e respects p = rw e p
  connect_on-Kept (some t) component s e respects p =
      let connected = (respects t refl).init_connection s.world p in rw e (ground arith)

  constructed-Kept :
      (r : Responder) (result : Result (Unit {0})) (s : State D)
      → P s.world
      → P (constructed r (result, s)).1
  constructed-Kept r (ok u) s p = p
  constructed-Kept r (threw e) s p = p
  constructed-Kept r unfinished s p = p

  pub new_responder-Kept :
      (filename : List ℕ → List ℕ) (clock : D → ℕ) (info : ResponderInfo) (w : World D)
      → RespectsOn lib P info.transport
      → P w
      → P (new_responder lib filename clock info w).1
  unfolding new_responder members
  new_responder-Kept filename clock info w respects p =
      let component = (members lib filename clock (clock w.device) info).component_integrity in
      let s : State D = record { world = w; certificate_object = none } in
      let connected = initialize_spdm_connection lib component s in
      constructed-Kept _ connected.0 connected.1
        (connect_on-Kept info.transport component s refl respects p)

  -- A responder may call for its own transport, and for that of its session.
  abbrev pub May : Responder → Type 0
  May r = RespectsOn lib P r.transport × Owned lib P r.session

  abbrev pub Made : Result Responder → Type 0
  Made (ok r) = May r
  Made _ = Unit

  constructed-Made :
      (r : Responder) (result : Result (Unit {0})) (s : State D)
      → May r
      → Made (constructed r (result, s)).0
  constructed-Made r (ok u) s m = m
  constructed-Made r (threw e) s m = tt
  constructed-Made r unfinished s m = tt

  pub new_responder-Made :
      (filename : List ℕ → List ℕ) (clock : D → ℕ) (info : ResponderInfo) (w : World D)
      → RespectsOn lib P info.transport
      → Made (new_responder lib filename clock info w).0
  unfolding new_responder members
  new_responder-Made filename clock info w respects =
      let r = members lib filename clock (clock w.device) info in
      let s : State D = record { world = w; certificate_object = none } in
      let connected = initialize_spdm_connection lib r.component_integrity s in
      constructed-Made r connected.0 connected.1 (respects, tt)

  module _ (algorithms : Algorithms) (files : Files) where
    session_on-Owned :
        (t : ℕ) (session : Option SpdmSession)
        → Respects lib P t
        → Owned lib P session
        → Respects lib P (session_on t session).transport
    unfolding new_session
    session_on-Owned t none respects owned = respects
    session_on-Owned t (some session) respects owned = owned

    start-transport :
        (slot hash policy : ℕ) (use_psk : Bool) (session : SpdmSession) (w : World D)
        → (start lib slot hash policy use_psk session w).1.transport ≡ session.transport
    unfolding start start_exchange
    start-transport slot hash policy use_psk session w = ground arith

    open_session-Kept :
        (t slot : ℕ) (r : Responder) (w : World D)
        → Respects lib P t
        → Owned lib P r.session
        → P w
        → P (open_session lib algorithms files t slot r w).2
          × Owned lib P (open_session lib algorithms files t slot r w).1.session
    unfolding open_session
    open_session-Kept t slot r w respects owned p =
        let own = session_on-Owned t r.session respects owned in
        elim (Bool-cases (session_on t r.session).is_active) [
          | inl active ↦ rw active (p, own)
          | inr inactive ↦ rw inactive (
            start-Kept lib P slot algorithms.no_measurement_summary_hash 0 false
                (session_on t r.session) own w p,
            subst (Respects lib P) (sym (start-transport slot _ 0 false _ w)) own,
          )
        ]

    open_on-Kept :
        (t : Option ℕ) (cfg : SecureSessionConfig) (slot : ℕ) (r : Responder) (w : World D)
        → RespectsOn lib P t
        → Owned lib P r.session
        → P w
        → P (open_on lib algorithms files t cfg slot r w).2
          × Owned lib P (open_on lib algorithms files t cfg slot r w).1.session
    open_on-Kept none cfg slot r w respects owned p = (p, owned)
    open_on-Kept (some t) cfg slot r w respects owned p =
        let installed =
          install_peer_root_cert-Kept lib P t (respects t refl) algorithms files cfg w p in
        elim (Bool-cases (lib.is_error (install_peer_root_cert lib algorithms files t cfg w).0)) [
          | inl bad ↦ rw bad (installed, owned)
          | inr good ↦ rw good (open_session-Kept t slot r _ (respects t refl) owned installed)
        ]

    pub open_secure_session-Kept :
        (cfg : SecureSessionConfig) (slot : ℕ) (r : Responder) (w : World D)
        → May r
        → P w
        → P (open_secure_session lib algorithms files cfg slot r w).2
          × Owned lib P (open_secure_session lib algorithms files cfg slot r w).1.session
    unfolding open_secure_session
    open_secure_session-Kept cfg slot r w (respects, owned) p =
        open_on-Kept r.transport cfg slot r w respects owned p

  close_on-Kept :
      (session : Option SpdmSession) (r : Responder) (w : World D)
      → Owned lib P session
      → P w
      → P (close_on lib session r w).2
  close_on-Kept none r w owned p = p
  close_on-Kept (some session) r w owned p = stop-Kept lib P 0 session owned w p

  pub close_secure_session-Kept :
      (r : Responder) (w : World D)
      → Owned lib P r.session
      → P w
      → P (close_secure_session lib r w).2
  unfolding close_secure_session
  close_secure_session-Kept r w owned p = close_on-Kept r.session r w owned p

  beat-Kept :
      (session : Option SpdmSession) (w : World D)
      → Owned lib P session
      → P w
      → P (beat lib session w).1
  beat-Kept none w owned p = p
  beat-Kept (some session) w owned p =
      let beaten = heartbeat-Kept lib P session owned w p in ground arith

  pub send_heartbeat-Kept :
      (r : Responder) (w : World D) → Owned lib P r.session → P w → P (send_heartbeat lib r w).1
  unfolding send_heartbeat
  send_heartbeat-Kept r w owned p = beat-Kept r.session w owned p

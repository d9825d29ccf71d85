-- ===== src/Daemon/Kept.antt =====
-- What the daemon's callbacks keep of the world: all that libspdm's calls keep and the
-- initialization of a transport keeps.
use spdm_working.Common.{◌≡◌, refl, ℕ, List, [], ◌∷◌, Option, none, some, Bool, arith}
use spdm_working.Exceptions.{Result, ok, threw, unfinished}
use spdm_working.Libspdm.{World}
use spdm_working.Libspdm.Kept.{Respects, RespectsOn}
use spdm_working.Session.{SpdmSession}
use spdm_working.Session.Kept.{destroy-Kept}
use spdm_working.Config.{SecureSessionConfig}
use spdm_working.Config.Kept.{apply_secure_session_config-Kept}
use spdm_working.Responder.{ResponderInfo, Responder, new_responder, open_secure_session}
use spdm_working.Responder.Kept.{
  Owned, May, Made, new_responder-Made, new_responder-Kept, open_secure_session-Kept,
  close_secure_session-Kept, send_heartbeat-Kept,
}
use spdm_working.Daemon.{
  Platform, Daemon, Event, discovered, enabled_set, secure_session_enabled_set, drop_session,
  close_if_active, close_all, clear, tear_down_responders, open_and_beat, prepare_on, prepare,
  with_constructed, construct, process_device, process_all, process_discovered_devices,
  open_if_inactive, open_all, on_discovered, on_enabled_change, on_secure_session_enabled_change,
  set_enabled, set_secure_session_enabled, handle, run,
}

module _ {D : Type 0} (platform : Platform D) (cfg : SecureSessionConfig)
    (P : World D → Type 0) where
  open_and_beat-Kept :
      (r : Responder) (w : World D)
      → May platform.lib P r
      → P w
      → P (open_and_beat platform cfg r w).1
  unfolding open_and_beat
  open_and_beat-Kept r w may p =
      let opened = open_secure_session platform.lib platform.algorithms platform.files cfg 0 r w in
      let (p', owned) =
        open_secure_session-Kept platform.lib P platform.algorithms platform.files cfg 0 r w may
          p in
      let beaten = send_heartbeat-Kept platform.lib P opened.1 opened.2 owned p' in ground arith

  prepare_on-Kept :
      (t : ℕ) (w : World D)
      → Respects platform.lib P t
      → P (platform.initialize t w).1
      → P (prepare_on platform cfg t w).1
  unfolding prepare_on
  prepare_on-Kept t w respects p' =
      let w' = (platform.initialize t w).1 in
      let applied =
        apply_secure_session_config-Kept platform.lib P t respects platform.version_shift cfg w'
          p' in
      ground arith

  prepare-Kept :
      (t : Option ℕ) (w : World D)
      → RespectsOn platform.lib P t
      → P w
      → ((t' : ℕ) → t ≡ some t' → P (platform.initialize t' w).1)
      → P (prepare platform cfg t w).1
  prepare-Kept none w respects p h = p
  prepare-Kept (some t) w respects p h = prepare_on-Kept t w (respects t refl) (h t refl)

  with_constructed-Kept :
      (secure : Bool) (t : Option ℕ) (result : Result Responder) (w : World D)
      → Made platform.lib P result
      → P w
      → P (with_constructed platform cfg secure t (result, w)).1
  with_constructed-Kept secure t (ok r) w may p =
      let opened = open_and_beat-Kept r w may p in ground arith
  with_constructed-Kept secure t (threw e) w may p = p
  with_constructed-Kept secure t unfinished w may p = p

  construct-Kept :
      (secure : Bool) (info : ResponderInfo) (w : World D)
      → RespectsOn platform.lib P info.transport
      → P w
      → P (construct platform cfg secure info w).1
  unfolding construct
  construct-Kept secure info w respects p =
      let r = new_responder platform.lib platform.filename platform.clock info w in
      with_constructed-Kept secure info.transport r.0 r.1
        (new_responder-Made platform.lib P platform.filename platform.clock info w respects)
        (new_responder-Kept platform.lib P platform.filename platform.clock info w respects p)

  pub process_device-Kept :
      (secure : Bool) (info : ResponderInfo) (w : World D)
      → RespectsOn platform.lib P info.transport
      → P w
      → ((t : ℕ) → info.transport ≡ some t → P (platform.initialize t w).1)
      → P (process_device platform cfg secure info w).1
  unfolding process_device
  process_device-Kept secure info w respects p h =
      let w' = (prepare platform cfg info.transport w).1 in
      let p' = prepare-Kept info.transport w respects p h in
      let constructed = construct-Kept secure info w' respects p' in ground arith

  module _ (respects : (t : ℕ) → Respects platform.lib P t) where
    owned : (session : Option SpdmSession) → Owned platform.lib P session
    owned none = tt
    owned (some session) = respects session.transport

    may : (r : Responder) → May platform.lib P r
    may r = ((λ t e. respects t), owned r.session)

    drop_session-Kept :
        (session : Option SpdmSession) (w : World D) → P w → P (drop_session platform session w)
    drop_session-Kept none w p = p
    drop_session-Kept (some session) w p =
        destroy-Kept platform.lib P session (respects session.transport) w p

    close_if_active-Kept : (r : Responder) (w : World D) → P w → P (close_if_active platform r w).1
    unfolding close_if_active
    close_if_active-Kept r w p =
        let closed = close_secure_session-Kept platform.lib P r w (owned r.session) p in
        ground arith

    close_all-Kept : (rs : List Responder) (w : World D) → P w → P (close_all platform rs w).1
    unfolding close_all
    close_all-Kept [] w p = p
    close_all-Kept (r ∷ rs) w p =
        close_all-Kept rs (close_if_active platform r w).1 (close_if_active-Kept r w p)

    pub clear-Kept : (rs : List Responder) (w : World D) → P w → P (clear platform rs w)
    unfolding clear
    clear-Kept [] w p = p
    clear-Kept (r ∷ rs) w p =
        clear-Kept rs (drop_session platform r.session w) (drop_session-Kept r.session w p)

    tear_down_responders-Kept :
        (rs : List Responder) (w : World D) → P w → P (tear_down_responders platform rs w).1
    unfolding tear_down_responders
    tear_down_responders-Kept rs w p =
        let closed = close_all platform rs w in clear-Kept closed.0 closed.1 (close_all-Kept rs w p)

    open_if_inactive-Kept :
        (r : Responder) (w : World D) → P w → P (open_if_inactive platform cfg r w).1
    unfolding open_if_inactive
    open_if_inactive-Kept r w p = let opened = open_and_beat-Kept r w (may r) p in ground arith

    open_all-Kept : (rs : List Responder) (w : World D) → P w → P (open_all platform cfg rs w).1
    unfolding open_all
    open_all-Kept [] w p = p
    open_all-Kept (r ∷ rs) w p =
        open_all-Kept rs (open_if_inactive platform cfg r w).1 (open_if_inactive-Kept r w p)

    module _ (initializes : (t : ℕ) (w : World D) → P w → P (platform.initialize t w).1) where
      process_all-Kept :
          (secure : Bool) (infos : List ResponderInfo) (w : World D)
          → P w
          → P (process_all platform cfg secure infos w).1
      unfolding process_all
      process_all-Kept secure [] w p = p
      process_all-Kept secure (info ∷ infos) w p =
          process_all-Kept secure infos (process_device platform cfg secure info w).1
            (process_device-Kept secure info w (λ t e. respects t) p (λ t e. initializes t w p))

      process_discovered_devices-Kept :
          (secure : Bool) (devices : List ResponderInfo) (rs : List Responder) (w : World D)
          → P w
          → P (process_discovered_devices platform cfg secure devices rs w).1
      unfolding process_discovered_devices
      process_discovered_devices-Kept secure devices rs w p =
          process_all-Kept secure devices (tear_down_responders platform rs w).1
            (tear_down_responders-Kept rs w p)

      pub on_discovered-Kept :
          (devices : List ResponderInfo) (s : Daemon D)
          → P s.world
          → P (on_discovered platform cfg devices s).world
      unfolding on_discovered
      on_discovered-Kept devices s p =
          let processed =
            process_discovered_devices-Kept s.secure_session_enabled devices s.responders s.world
              p in
          ground arith

      pub set_enabled-Kept :
          (b : Bool) (s : Daemon D) → P s.world → P (set_enabled platform cfg b s).1.world
      unfolding set_enabled on_enabled_change
      set_enabled-Kept b s p =
          let processed =
            process_discovered_devices-Kept s.secure_session_enabled s.discovered_devices
              s.responders s.world p in
          let torn_down = tear_down_responders-Kept s.responders s.world p in ground arith

      pub set_secure_session_enabled-Kept :
          (b : Bool) (s : Daemon D)
          → P s.world
          → P (set_secure_session_enabled platform cfg b s).1.world
      unfolding set_secure_session_enabled on_secure_session_enabled_change
      set_secure_session_enabled-Kept b s p =
          let opened = open_all-Kept s.responders s.world p in
          let closed = close_all-Kept s.responders s.world p in ground arith

      pub handle-Kept :
          (e : Event platform) (s : Daemon D) → P s.world → P (handle platform cfg e s).world
      unfolding handle
      handle-Kept (discovered devices) s p = on_discovered-Kept devices s p
      handle-Kept (enabled_set b) s p = set_enabled-Kept b s p
      handle-Kept (secure_session_enabled_set b) s p = set_secure_session_enabled-Kept b s p

      pub run-Kept :
          (es : List (Event platform)) (s : Daemon D) → P s.world → P (run platform cfg es s).world
      unfolding run
      run-Kept [] s p = p
      run-Kept (e ∷ es) s p = run-Kept es (handle platform cfg e s) (handle-Kept e s p)

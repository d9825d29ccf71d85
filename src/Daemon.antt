-- ===== src/Daemon.antt =====
-- The callbacks of requester/spdmd.cpp, and the properties of `PolicyManager`
-- (requester/policy_manager.hpp) whose changes run them.
pub mod Responders
pub mod Policies
pub mod PolicyFile
pub mod Made
pub mod Kept
pub mod Demo
pub mod Startup
pub mod Main
mod Examples
use spdm_working.Common.{
  ℕ, List, [], ◌∷◌, ◌++◌, Option, none, some, Bool, true, false, not, ◌&&◌, if◌then◌else◌,
}
use spdm_working.Exceptions.{Result, ok, threw, unfinished}
use spdm_working.Libspdm.{Libspdm, Status, World, Algorithms}
use spdm_working.Config.{SecureSessionConfig, Files, apply_secure_session_config}
use spdm_working.Session.{SpdmSession, destroy}
use spdm_working.Responder.{
  ResponderInfo, Responder, secure_session_active, new_responder, open_secure_session,
  close_secure_session, send_heartbeat,
}

-- What the program is built on: libspdm, its constants, the files, `filename`, the clock, and
-- `SpdmTransport::initialize`, which is virtual.
pub record Platform (D : Type 0) : Type 0 where
  pub lib : Libspdm D
  pub algorithms : Algorithms
  pub version_shift : ℕ
  pub files : Files
  pub filename : List ℕ → List ℕ
  pub clock : D → ℕ
  pub initialize : ℕ → World D → Bool × World D

-- The variables of `main` and of the policy.
pub record Daemon (D : Type 0) : Type 0 where
  pub enabled : Bool
  pub secure_session_enabled : Bool
  pub discovered_devices : List ResponderInfo
  pub responders : List Responder
  pub world : World D

abbrev pub same : Bool → Bool → Bool
same true b = b
same false b = not b

-- `device.transport` is not null.
abbrev pub has_transport : Option ℕ → Bool
has_transport none = false
has_transport (some t) = true

-- `push_back` of the responder that was made, where one was.
abbrev pub pushed : Option Responder → List Responder → List Responder
pushed none rs = rs
pushed (some r) rs = r ∷ rs

module _ {D : Type 0} (platform : Platform D) where
  -- The end of a responder: its session's destructor.
  abbrev pub drop_session : Option SpdmSession → World D → World D
  drop_session none w = w
  drop_session (some session) w = destroy platform.lib session w

  -- The loop body that closes an active session; its status is only logged.
  unfoldable pub close_if_active : Responder → World D → Responder × World D
  close_if_active r w =
      if secure_session_active r
      then (let (st, closed, w') = close_secure_session platform.lib r w in (closed, w'))
      else (r, w)

  unfoldable pub close_all : List Responder → World D → List Responder × World D
  unfolding close_if_active
  close_all [] w = ([], w)
  close_all (r ∷ rs) w =
      let closed = close_if_active r w in
      let others = close_all rs closed.1 in (closed.0 ∷ others.0, others.1)

  -- `responders.clear()`.
  unfoldable pub clear : List Responder → World D → World D
  clear [] w = w
  clear (r ∷ rs) w = clear rs (drop_session r.session w)

  unfoldable pub tear_down_responders : List Responder → World D → List Responder × World D
  unfolding close_all clear
  tear_down_responders rs w = let closed = close_all rs w in ([], clear closed.0 closed.1)

  -- A heartbeat at once, whose status is only logged, if the session was opened.
  unfoldable pub open_and_beat : SecureSessionConfig → Responder → World D → Responder × World D
  open_and_beat cfg r w =
      let (st, opened, w') =
        open_secure_session platform.lib platform.algorithms platform.files cfg 0 r w in
      if platform.lib.is_error st
      then (opened, w')
      else (opened, (send_heartbeat platform.lib opened w').1)

  -- Initialization and configuration; `false` where the loop continues with the next device.
  unfoldable pub prepare_on : SecureSessionConfig → ℕ → World D → Bool × World D
  prepare_on cfg t w =
      let (initialized, w') = platform.initialize t w in
      if not initialized
      then (false, w')
      else let (st, w'') =
          apply_secure_session_config platform.lib platform.version_shift t cfg w' in
        (not (platform.lib.is_error st), w'')

  abbrev pub prepare : SecureSessionConfig → Option ℕ → World D → Bool × World D
  prepare cfg none w = (true, w)
  prepare cfg (some t) w = prepare_on cfg t w

  -- What follows the constructor; `catch` continues with the next device.
  abbrev pub with_constructed :
      SecureSessionConfig
      → Bool
      → Option ℕ
      → Result Responder × World D
      → Option Responder × World D
  with_constructed cfg secure transport (ok r, w) =
      if has_transport transport && secure
      then (let (r', w') = open_and_beat cfg r w in (some r', w'))
      else (some r, w)
  with_constructed cfg secure transport (threw e, w) = (none, w)
  with_constructed cfg secure transport (unfinished, w) = (none, w)

  unfoldable pub construct :
      SecureSessionConfig → Bool → ResponderInfo → World D → Option Responder × World D
  unfolding open_and_beat
  construct cfg secure info w =
      with_constructed cfg secure info.transport
        (new_responder platform.lib platform.filename platform.clock info w)

  -- The loop body for one device: the responder made for it, if one is.
  unfoldable pub process_device :
      SecureSessionConfig → Bool → ResponderInfo → World D → Option Responder × World D
  unfolding prepare_on construct
  process_device cfg secure info w =
      let (ready, w') = prepare cfg info.transport w in
      if ready then construct cfg secure info w' else (none, w')

  unfoldable pub process_all :
      SecureSessionConfig → Bool → List ResponderInfo → World D → List Responder × World D
  unfolding process_device
  process_all cfg secure [] w = ([], w)
  process_all cfg secure (info ∷ infos) w =
      let (made, w') = process_device cfg secure info w in
      let (others, w'') = process_all cfg secure infos w' in (pushed made others, w'')

  unfoldable pub process_discovered_devices :
      SecureSessionConfig
      → Bool
      → List ResponderInfo
      → List Responder
      → World D
      → List Responder × World D
  unfolding tear_down_responders process_all
  process_discovered_devices cfg secure devices rs w =
      process_all cfg secure devices (tear_down_responders rs w).1

  -- The loop of the callback that opens sessions.
  unfoldable pub open_if_inactive : SecureSessionConfig → Responder → World D → Responder × World D
  unfolding open_and_beat
  open_if_inactive cfg r w = if not (secure_session_active r) then open_and_beat cfg r w else (r, w)

  unfoldable pub open_all :
      SecureSessionConfig → List Responder → World D → List Responder × World D
  unfolding open_if_inactive
  open_all cfg [] w = ([], w)
  open_all cfg (r ∷ rs) w =
      let opened = open_if_inactive cfg r w in
      let others = open_all cfg rs opened.1 in (opened.0 ∷ others.0, others.1)

  abbrev pub with_responders : Daemon D → List Responder × World D → Daemon D
  with_responders s r = record s { responders = r.0; world = r.1 }

  -- The callback of a discovery.
  unfoldable pub on_discovered : SecureSessionConfig → List ResponderInfo → Daemon D → Daemon D
  unfolding process_discovered_devices
  on_discovered cfg devices s =
      let s = record s { discovered_devices = devices } in
      if s.enabled
      then with_responders s
          (process_discovered_devices cfg s.secure_session_enabled devices s.responders s.world)
      else s

  -- The callback of a change of `Enabled`.
  unfoldable pub on_enabled_change : SecureSessionConfig → Bool → Bool → Daemon D → Daemon D
  unfolding process_discovered_devices tear_down_responders
  on_enabled_change cfg old_value new_value s =
      if not old_value && new_value
      then with_responders s (
          process_discovered_devices cfg s.secure_session_enabled s.discovered_devices s.responders
            s.world)
      else if old_value && not new_value
      then with_responders s (tear_down_responders s.responders s.world)
      else s

  -- The callback of a change of `SecureSessionEnabled`.
  unfoldable pub on_secure_session_enabled_change :
      SecureSessionConfig → Bool → Bool → Daemon D → Daemon D
  unfolding open_all close_all
  on_secure_session_enabled_change cfg old_value new_value s =
      if same old_value new_value
      then s
      else if not s.enabled
      then s
      else if not old_value && new_value
      then with_responders s (open_all cfg s.responders s.world)
      else with_responders s (close_all s.responders s.world)

  -- `PolicyManager::set_property`, with the callbacks that `main` registers. The result compares
  -- the new value with the old one, which the swap has put into the argument.
  unfoldable pub set_enabled : SecureSessionConfig → Bool → Daemon D → Bool × Daemon D
  unfolding on_enabled_change
  set_enabled cfg enabled s =
      let s' = record s { enabled = enabled } in
      (
        same enabled s.enabled,
        if not (same enabled s.enabled) then on_enabled_change cfg s.enabled enabled s' else s',
      )

  unfoldable pub set_secure_session_enabled :
      SecureSessionConfig → Bool → Daemon D → Bool × Daemon D
  unfolding on_secure_session_enabled_change
  set_secure_session_enabled cfg enabled s =
      let s' = record s { secure_session_enabled = enabled } in
      (
        same enabled s.secure_session_enabled,
        if not (same enabled s.secure_session_enabled)
            then on_secure_session_enabled_change cfg s.secure_session_enabled enabled s'
            else s',
      )

  -- What the event loop runs.
  pub data Event : Type 0 where
    discovered : List ResponderInfo → Event
    enabled_set : Bool → Event
    secure_session_enabled_set : Bool → Event

  unfoldable pub handle : SecureSessionConfig → Event → Daemon D → Daemon D
  unfolding on_discovered set_enabled set_secure_session_enabled
  handle cfg (discovered devices) s = on_discovered cfg devices s
  handle cfg (enabled_set b) s = (set_enabled cfg b s).1
  handle cfg (secure_session_enabled_set b) s = (set_secure_session_enabled cfg b s).1

  unfoldable pub run : SecureSessionConfig → List Event → Daemon D → Daemon D
  unfolding handle
  run cfg [] s = s
  run cfg (e ∷ es) s = run cfg es (handle cfg e s)

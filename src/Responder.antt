-- ===== src/Responder.antt =====
-- `SPDMDBusResponder` of requester/spdm_dbus_responder.cpp: the objects published for one device,
-- and its secure session.
pub mod Opening
pub mod Kept
mod Examples
use spdm_working.Common.{ℕ, List, ◌++◌, Option, none, some, Bool, false, if◌then◌else◌}
use spdm_working.Common.Text.{codes}
use spdm_working.Exceptions.{Result, ok, threw, unfinished}
use spdm_working.Libspdm.{
  Libspdm, Status, success, invalid_parameter, invalid_state_local, World, Algorithms,
}
use spdm_working.Integrity.{Component, State, new_component, with_transport}
use spdm_working.Integrity.Certificates.{initialize_spdm_connection}
use spdm_working.Session.{SpdmSession, new_session, start, stop, heartbeat}
use spdm_working.Config.{SecureSessionConfig, Files, install_peer_root_cert}

-- `ResponderInfo` (requester/spdm_discovery.hpp): what discovery tells of a device.
pub record ResponderInfo : Type 0 where
  pub object_path : List ℕ
  pub device_object_path : List ℕ
  pub transport : Option ℕ

pub record Responder : Type 0 where
  pub device_name : List ℕ
  pub inventory_path : List ℕ
  pub transport : Option ℕ
  pub component_integrity : Component
  pub trusted_component_path : List ℕ
  pub session : Option SpdmSession

abbrev pub session_is_active : Option SpdmSession → Bool
session_is_active none = false
session_is_active (some session) = session.is_active

-- `secureSessionActive`.
abbrev pub secure_session_active : Responder → Bool
secure_session_active r = session_is_active r.session

abbrev pub with_session :
    {D : Type 0} → Responder → Status × SpdmSession × World D → Status × Responder × World D
with_session r (st, session, w) = (st, record r { session = some session }, w)

abbrev pub session_on : ℕ → Option SpdmSession → SpdmSession
session_on t none = new_session t
session_on t (some session) = session

abbrev pub constructed :
    {D : Type 0} → Responder → Result (Unit {0}) × State D → Result Responder × World D
constructed r (ok u, s) = (ok r, s.world)
constructed r (threw e, s) = (threw e, s.world)
constructed r (unfinished, s) = (unfinished, s.world)

module _ {D : Type 0} (lib : Libspdm D) (filename : List ℕ → List ℕ) (clock : D → ℕ) where
  -- The members that the constructor sets, at a time of the clock. Without a transport the component
  -- keeps its own, which is null.
  unfoldable pub members : ℕ → ResponderInfo → Responder
  unfolding new_component
  members now info =
      let device_name = filename info.device_object_path in
      record {
        device_name = device_name;
        inventory_path = info.object_path;
        transport = info.transport;
        component_integrity =
            with_transport info.transport
              (new_component (codes "/xyz/openbmc_project/ComponentIntegrity/" ++ device_name) now);
        trusted_component_path = codes "/xyz/openbmc_project/TrustedComponent/" ++ device_name;
        session = none;
      }

  -- The constructor ends with the connection, and throws what that throws.
  unfoldable pub new_responder : ResponderInfo → World D → Result Responder × World D
  unfolding members
  new_responder info w = constructed (members (clock w.device) info) (
      initialize_spdm_connection lib (members (clock w.device) info).component_integrity
        (record { world = w; certificate_object = none }))

module _ {D : Type 0} (lib : Libspdm D) (algorithms : Algorithms) (files : Files) where
  -- The session on a transport, made if there is none, and started unless it is active.
  unfoldable pub open_session : ℕ → ℕ → Responder → World D → Status × Responder × World D
  open_session t slot_id r w =
      let session = session_on t r.session in
      if session.is_active
      then (success, record r { session = some session }, w)
      else with_session r
          (start lib slot_id algorithms.no_measurement_summary_hash 0 false session w)

  abbrev pub open_on :
      Option ℕ → SecureSessionConfig → ℕ → Responder → World D → Status × Responder × World D
  open_on none cfg slot_id r w = (invalid_parameter, r, w)
  open_on (some t) cfg slot_id r w =
      let installed = install_peer_root_cert lib algorithms files t cfg w in
      if lib.is_error installed.0
      then (installed.0, r, installed.1)
      else open_session t slot_id r installed.1

  unfoldable pub open_secure_session :
      SecureSessionConfig → ℕ → Responder → World D → Status × Responder × World D
  unfolding open_session
  open_secure_session cfg slot_id r w = open_on r.transport cfg slot_id r w

module _ {D : Type 0} (lib : Libspdm D) where
  abbrev pub close_on : Option SpdmSession → Responder → World D → Status × Responder × World D
  close_on none r w = (success, r, w)
  close_on (some session) r w = with_session r (stop lib 0 session w)

  unfoldable pub close_secure_session : Responder → World D → Status × Responder × World D
  close_secure_session r w = close_on r.session r w

  abbrev pub beat : Option SpdmSession → World D → Status × World D
  beat none w = (invalid_state_local, w)
  beat (some session) w =
      if session.is_active then heartbeat lib session w else (invalid_state_local, w)

  unfoldable pub send_heartbeat : Responder → World D → Status × World D
  send_heartbeat r w = beat r.session w

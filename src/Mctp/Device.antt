-- ===== src/Mctp/Device.antt =====
-- The device callbacks of requester/libspdm_mctp_transport.cpp that libspdm sends and receives by.
-- The allocations inside `std::vector` succeed, so that the handlers of exceptions are not reached.
pub mod Outcome
pub mod RoundTrip
use spdm_working.Common.{ℕ, List, Bool, true, false, Option, none, some}
use spdm_working.Common.Partial.{◌>>=◌}
use spdm_working.Libspdm.{Status, success, send_fail, receive_fail, invalid_state_local}
use spdm_working.Tcp.Frame.{Decoded, refused}
use spdm_working.Tcp.Device.{is_success}
use spdm_working.Mctp.Frame.{encode, decode}
use spdm_working.Mctp.Socket.{Datagrams}
use spdm_working.Mctp.Io.{write, read}

-- What the callbacks read of the transport: `eid`, and whether its socket is open.
pub record Endpoint : Type 0 where
  pub eid : ℕ
  pub is_open : Bool

module _ (socket : Datagrams) where
  open socket use {State}

  abbrev pub sent_or_failed : Status × State → Option (Status × State)
  sent_or_failed (success, s) = some (success, s)
  sent_or_failed (_, s) = some (send_fail, s)

  -- `context->app_context_data_ptr` is the transport; `none` is a null pointer. `encode` never fails.
  unfoldable pub device_send_message :
      ℕ → Option Endpoint → List ℕ → State → Option (Status × State)
  device_send_message tag_owner none message s = some (invalid_state_local, s)
  device_send_message tag_owner (some transport) message s = do
    result ← write socket transport.is_open (encode tag_owner transport.eid message) s
    sent_or_failed result

  -- What the callback leaves behind once `decode` has returned.
  abbrev pub after_decode : State → Decoded → Option (Decoded × State)
  after_decode s d = elim (is_success d.status) [
    | true ↦ some (d, s)
    | false ↦ some (record d { status = receive_fail }, s)
  ]

  abbrev pub after_read : (ℕ → Bool) → ℕ → Status × List ℕ × State → Option (Decoded × State)
  after_read malloc eid (success, response, s) = do d ← decode malloc eid response; after_decode s d
  after_read malloc eid (_, response, s) = some (refused receive_fail, s)

  unfoldable pub device_receive_message :
      (ℕ → Bool) → Option Endpoint → State → Option (Decoded × State)
  device_receive_message malloc none s = some (refused invalid_state_local, s)
  device_receive_message malloc (some transport) s =
      after_read malloc transport.eid (read socket transport.is_open s)

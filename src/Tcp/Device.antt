-- ===== src/Tcp/Device.antt =====
-- The device callbacks of requester/libspdm_tcp_transport.cpp that libspdm sends and receives by.
-- The allocations inside `std::vector` succeed, so that the handlers of exceptions are not reached.
pub mod RoundTrip
use spdm_working.Common.{ℕ, List, Bool, true, false, Option, none, some}
use spdm_working.Common.Partial.{◌>>=◌}
use spdm_working.Libspdm.{Status, success, send_fail, receive_fail, invalid_state_local}
use spdm_working.Tcp.Frame.{encode, decode, Decoded, refused}
use spdm_working.Tcp.Socket.{Socket}
use spdm_working.Tcp.Io.{write, read}

-- `status == LIBSPDM_STATUS_SUCCESS`
abbrev pub is_success : Status → Bool
is_success success = true
is_success _ = false

module _ (socket : Socket) where
  open socket use {State}

  abbrev pub sent_or_failed : Status × State → Option (Status × State)
  sent_or_failed (success, s) = some (success, s)
  sent_or_failed (_, s) = some (send_fail, s)

  -- `context->app_context_data_ptr` is the transport, of which only whether its socket is open
  -- matters here; `none` is a null pointer. `encode` never fails.
  unfoldable pub device_send_message :
      ℕ → Option Bool → List ℕ → ℕ → State → Option (Status × State)
  device_send_message fuel none message timeout s = some (invalid_state_local, s)
  device_send_message fuel (some is_open) message timeout s = do
    result ← write socket fuel is_open (encode message) timeout s
    sent_or_failed result

  -- What the callback leaves behind once `decode` has returned.
  abbrev pub after_decode : State → Decoded → Option (Decoded × State)
  after_decode s d = elim (is_success d.status) [
    | true ↦ some (d, s)
    | false ↦ some (record d { status = receive_fail }, s)
  ]

  abbrev pub after_read : (ℕ → Bool) → Status × List ℕ × State → Option (Decoded × State)
  after_read malloc (success, tcp_message, s) = do d ← decode malloc tcp_message; after_decode s d
  after_read malloc (_, tcp_message, s) = some (refused receive_fail, s)

  unfoldable pub device_receive_message :
      ℕ → (ℕ → Bool) → Option Bool → ℕ → State → Option (Decoded × State)
  device_receive_message fuel malloc none timeout s = some (refused invalid_state_local, s)
  device_receive_message fuel malloc (some is_open) timeout s = do
    result ← read socket fuel is_open timeout s
    after_read malloc result

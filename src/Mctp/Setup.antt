-- ===== src/Mctp/Setup.antt =====
-- `SpdmMctpTransport::initialize` and its steps (requester/libspdm_mctp_transport.cpp).
pub mod Outcome
pub mod Context
use spdm_working.Common.{ℕ, Option, none, some, Bool, true, false, if◌then◌else◌}
use spdm_working.Libspdm.{Status}
use spdm_working.Machine.{Host, Machine, mctp_layer, on_device, ask, malloc, free}
use spdm_working.Setup.{
  SpdmTransport, is_set, register_functions, setup_scratch_buffer, configure_context, deinit_if_set,
  destroy_transport,
}
use spdm_working.Tcp.Device.{is_success}
use spdm_working.Mctp.Connect.{create_socket, delete_socket}

module _ {D : Type 0} (host : Host D) where
  abbrev pub Step : Type 0
  Step = Bool × SpdmTransport × Machine D

  -- The transport once `libspdm_init_context` has returned, which keeps the context's pointer.
  abbrev pub after_init : SpdmTransport → Status × Machine D → Step
  after_init t (st, m) =
      if is_success st
      then (true, t, on_device (host.set_app_context_data t.spdm_context) m)
      else (false, t, m)

  abbrev pub after_malloc : SpdmTransport → Option ℕ × Machine D → Step
  after_malloc t (none, m) = (false, record t { spdm_context = none }, m)
  after_malloc t (some c, m) =
      after_init (record t { spdm_context = some c }) (ask (host.init_context (some c)) m)

  unfoldable pub allocate_context : SpdmTransport → Machine D → Step
  allocate_context t m = after_malloc t (malloc host host.context_size m)

  -- The context is not freed, and the socket is not closed.
  unfoldable pub cleanup_context : SpdmTransport → Machine D → SpdmTransport × Machine D
  cleanup_context t m = (
    record t { spdm_context = none; scratch_buffer = none },
    deinit_if_set host t.spdm_context (free t.scratch_buffer m),
  )

  -- `registerFunctions` and `configureContext` always return true.
  abbrev pub after_scratch : ℕ → Step → Step
  after_scratch shift (false, t, m) = let (t', m') = cleanup_context t m in (false, t', m')
  after_scratch shift (true, t, m) = (true, t, configure_context host shift t m)

  abbrev pub after_allocate : ℕ → Step → Step
  after_allocate shift (false, t, m) = (false, t, m)
  after_allocate shift (true, t, m) =
      after_scratch shift (setup_scratch_buffer host t (register_functions host mctp_layer t m))

  abbrev pub after_create : ℕ → SpdmTransport → (Bool × Option ℕ) × Machine D → Step
  after_create shift t ((false, fd), m) = (false, record t { socket_fd = fd }, m)
  after_create shift t ((true, fd), m) =
      after_allocate shift (allocate_context (record t { socket_fd = fd }) m)

  unfoldable pub initialize : ℕ → SpdmTransport → Machine D → Step
  unfolding allocate_context cleanup_context
  initialize shift t m = after_create shift t (create_socket host t.socket_fd m)

  -- `~SpdmMctpTransport`, the socket's member first.
  unfoldable pub destroy : SpdmTransport → Machine D → Machine D
  destroy t m = destroy_transport host t (delete_socket host t.socket_fd m).1

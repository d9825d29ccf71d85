-- ===== src/Client/Context.antt =====
-- The connection and the context of requester/spdm_simple_client.cpp: `tcpConnect`,
-- `tcpDisconnect`, `createSpdmContext` and `destroySpdmContext`. `gClientCtx.socketFd` is `none`
-- where it is negative.
pub mod Holdings
use spdm_working.Common.{ℕ, bit_or, List, Option, none, some, Bool, true, false, if◌then◌else◌}
use spdm_working.Libspdm.{
  Status, capability_ct_exponent, measurement_spec, local_base_asym_algo, local_base_hash_algo,
  number,
}
use spdm_working.Machine.{
  Host, Machine, inet_stream, client_layer, Connected, connected, on_device, ask, close, socket,
  malloc, free,
}
use spdm_working.Setup.{set_local}
use spdm_working.Tcp.Device.{is_success}
use spdm_working.Tcp.Connect.{Address}

-- The bits that the context is configured with: the measurement specification, the two
-- signature algorithms and the two hash algorithms.
pub record Settings : Type 0 where
  pub dmtf : ℕ
  pub ecdsa_p256 : ℕ
  pub ecdsa_p384 : ℕ
  pub sha_256 : ℕ
  pub sha_384 : ℕ

module _ {D : Type 0} (host : Host D) where
  abbrev pub Created : Type 0
  Created = (Bool × Option ℕ) × Machine D

  abbrev pub abandon : ℕ → Machine D → Created
  abandon fd m = ((false, none), close fd m)

  abbrev pub after_connect : ℕ → Connected × Machine D → Created
  after_connect fd (connected, m) = ((true, some fd), m)
  after_connect fd (_, m) = abandon fd m

  abbrev pub to_address : ℕ → ℕ → Option ℕ → Machine D → Created
  to_address fd port none m = abandon fd m
  to_address fd port (some addr) m = after_connect fd (ask (host.connect fd addr port) m)

  abbrev pub after_socket : Address → Option ℕ × Machine D → Created
  after_socket address (none, m) = ((false, none), m)
  after_socket address (some fd, m) =
      to_address fd address.port (host.inet_pton address.ip_addr)
        (on_device (host.set_timeouts fd 10) (on_device (host.set_no_delay fd) m))

  -- The result and `socketFd`, which is overwritten whatever it was.
  unfoldable pub tcp_connect : Address → Machine D → Created
  tcp_connect address m = after_socket address (socket host inet_stream m)

  unfoldable pub tcp_disconnect : Option ℕ → Machine D → Option ℕ × Machine D
  tcp_disconnect none m = (none, m)
  tcp_disconnect (some fd) m = (none, close fd m)

  -- The context and its scratch buffer, once the context is configured and checked.
  abbrev pub checked : ℕ → ℕ → Machine D → Option ℕ × Machine D
  checked context scratch m =
      if host.check_context (some context) m.device
      then (some context, m)
      else (none, free (some context) (free (some scratch) m))

  abbrev pub configure : Settings → ℕ → Machine D → Machine D
  configure settings context m =
      set_local host (some context) local_base_hash_algo 4
        (bit_or settings.sha_256 settings.sha_384)
        (set_local host (some context) local_base_asym_algo 4
          (bit_or settings.ecdsa_p256 settings.ecdsa_p384)
          (set_local host (some context) measurement_spec 1 settings.dmtf
            (set_local host (some context) capability_ct_exponent 1 0 m)))

  abbrev pub with_scratch : Settings → ℕ → ℕ → Option ℕ × Machine D → Option ℕ × Machine D
  with_scratch settings context size (none, m) = (none, free (some context) m)
  with_scratch settings context size (some scratch, m) = checked context scratch (
      configure settings context
        (on_device (host.set_scratch_buffer (some context) (some scratch) size) m))

  abbrev pub register : ℕ → Machine D → Machine D
  register context m = on_device (host.register_device_buffer_func client_layer (some context)) (
      on_device (host.register_transport_layer_func client_layer (some context))
        (on_device (host.register_device_io_func client_layer (some context)) m))

  abbrev pub after_init : Settings → ℕ → Status × Machine D → Option ℕ × Machine D
  after_init settings context (st, m) =
      if is_success st
      then (let m' = register context m in
          let size = host.required_scratch_buffer (some context) m'.device in
          with_scratch settings context size (malloc host size m'))
      else (none, free (some context) m)

  abbrev pub after_malloc : Settings → Option ℕ × Machine D → Option ℕ × Machine D
  after_malloc settings (none, m) = (none, m)
  after_malloc settings (some context, m) =
      after_init settings context (ask (host.init_context (some context)) m)

  unfoldable pub create_spdm_context : Settings → Machine D → Option ℕ × Machine D
  create_spdm_context settings m = after_malloc settings (malloc host host.context_size m)

  -- `ctx->scratch_buffer` is a member of the context, and so of libspdm.
  unfoldable pub destroy_spdm_context : (Option ℕ → D → Option ℕ) → Option ℕ → Machine D → Machine D
  destroy_spdm_context scratch_of none m = m
  destroy_spdm_context scratch_of (some context) m =
      free (some context) (
        on_device (host.deinit_context (some context))
          (free (scratch_of (some context) m.device) m))

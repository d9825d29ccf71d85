-- ===== src/Setup.antt =====
-- The members of `SpdmTransport` (requester/libspdm_transport.hpp) that its set-up reads and writes,
-- its destructor, and the steps of the set-up that the two transports have alike: they are written
-- from requester/libspdm_tcp_transport.cpp, and requester/libspdm_mctp_transport.cpp repeats them.
pub mod Ledger
pub mod Context
mod Examples
use spdm_working.Common.{
  ℕ, ◌≡◌, ◌⊎◌, ◌==◌, ◌<<◌, u16, if◌then◌else◌, Option, none, some, Bool, true, false,
}
use spdm_working.Libspdm.{
  DataType, spdm_version, capability_ct_exponent, measurement_spec, local_base_asym_algo,
  local_base_hash_algo, number,
}
use spdm_working.Machine.{Host, Machine, Layer, on_device, malloc, free}

-- `socketFd` is that of the member that does the transport's input and output.
pub record SpdmTransport : Type 0 where
  pub socket_fd : Option ℕ
  pub spdm_context : Option ℕ
  pub scratch_buffer : Option ℕ
  pub use_version : ℕ
  pub support_measurement_spec : ℕ
  pub support_asym_algo : ℕ
  pub support_hash_algo : ℕ

abbrev pub is_set : Option ℕ → Bool
is_set none = false
is_set (some p) = true

-- The transport cannot be used, for want of a context or of a socket.
abbrev pub LacksPart : SpdmTransport → Type 0
LacksPart t = (t.spdm_context ≡ none) ⊎ (t.socket_fd ≡ none)

module _ {D : Type 0} (host : Host D) where
  unfoldable pub register_functions : Layer → SpdmTransport → Machine D → Machine D
  register_functions layer t m = on_device (host.register_device_buffer_func layer t.spdm_context) (
      on_device (host.register_transport_layer_func layer t.spdm_context)
        (on_device (host.register_device_io_func layer t.spdm_context) m))

  abbrev pub with_scratch :
      ℕ → SpdmTransport → Option ℕ × Machine D → Bool × SpdmTransport × Machine D
  with_scratch size t (none, m) = (false, record t { scratch_buffer = none }, m)
  with_scratch size t (some p, m) = (
    true,
    record t { scratch_buffer = some p },
    on_device (host.set_scratch_buffer t.spdm_context (some p) size) m,
  )

  unfoldable pub setup_scratch_buffer : SpdmTransport → Machine D → Bool × SpdmTransport × Machine D
  setup_scratch_buffer t m =
      let size = host.required_scratch_buffer t.spdm_context m.device in
      with_scratch size t (malloc host size m)

  -- A value of so many bytes, at the location `LOCAL`. The status of the call is ignored.
  abbrev pub set_local : Option ℕ → DataType → ℕ → ℕ → Machine D → Machine D
  set_local context key size value m = on_device (host.set_data context key (number size value)) m

  -- `shift` is `SPDM_VERSION_NUMBER_SHIFT_BIT`.
  abbrev pub configure_version : ℕ → SpdmTransport → Machine D → Machine D
  configure_version shift t m =
      if t.use_version == 0
      then m
      else set_local t.spdm_context spdm_version 2 (u16 (t.use_version << shift)) m

  unfoldable pub configure_context : ℕ → SpdmTransport → Machine D → Machine D
  configure_context shift t m =
      set_local t.spdm_context local_base_hash_algo 4 t.support_hash_algo (
        set_local t.spdm_context local_base_asym_algo 4 t.support_asym_algo (
          set_local t.spdm_context measurement_spec 1 t.support_measurement_spec
            (set_local t.spdm_context capability_ct_exponent 1 0 (configure_version shift t m))))

  abbrev pub deinit_if_set : Option ℕ → Machine D → Machine D
  deinit_if_set none m = m
  deinit_if_set (some c) m = on_device (host.deinit_context (some c)) m

  -- `~SpdmTransport`, of which `free` ignores a null pointer. It does not free the context.
  unfoldable pub destroy_transport : SpdmTransport → Machine D → Machine D
  destroy_transport t m = deinit_if_set t.spdm_context (free t.scratch_buffer m)

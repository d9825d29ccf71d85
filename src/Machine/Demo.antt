-- ===== src/Machine/Demo.antt =====
-- A machine for tests, where every call succeeds but one allocation.
use spdm_working.Common.{ℕ, ◌+◌, ◌==◌, [], none, some, true, if◌then◌else◌}
use spdm_working.Libspdm.{success}
use spdm_working.Machine.{Host, Machine, connected}

-- The state counts the addresses and the descriptors given; `limit` is the first address that is
-- not to be had.
abbrev pub host : ℕ → Host ℕ
host limit = record {
  malloc = λ size d. (if d == limit then none else some d, d + 1);
  socket = λ family d. (some 3, d);
  set_no_delay = λ fd d. d;
  set_timeouts = λ fd seconds d. d;
  get_flags = λ fd d. (some 2, d);
  set_flags = λ fd flags d. d;
  o_nonblock = 2048;
  inet_pton = λ s. some 1;
  connect = λ fd addr port d. (connected, d);
  poll = λ fd ms d. (true, d);
  socket_error = λ fd d. (some 0, d);
  bind = λ fd d. (true, d);
  context_size = 64;
  init_context = λ c d. (success, d);
  deinit_context = λ c d. d;
  set_app_context_data = λ c d. d;
  register_device_io_func = λ layer c d. d;
  register_transport_layer_func = λ layer c d. d;
  register_device_buffer_func = λ layer c d. d;
  required_scratch_buffer = λ c d. 32;
  set_scratch_buffer = λ c p size d. d;
  set_data = λ c key value d. d;
  check_context = λ c d. true;
}

abbrev pub start : Machine ℕ
start = record { device = 100; blocks = []; descriptors = [] }

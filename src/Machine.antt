-- ===== src/Machine.antt =====
-- What the set-up of a transport is built on and the repository does not have: `malloc`, `free`, the
-- system calls on sockets, and libspdm's calls on a context, as functions of an unknown state. Beside
-- that state a machine keeps account of what the program holds: the blocks that `malloc` gave and
-- `free` did not take back, and the descriptors that `socket` gave and `close` did not.
pub mod Ledger
pub mod Demo
use spdm_working.Common.{ℕ, ◌==◌, if◌then◌else◌, List, [], ◌∷◌, Option, none, some, Bool}
use spdm_working.Libspdm.{Status, DataType, DataValue}

pub data Family : Type 0 where
  inet_stream mctp_datagram : Family

-- What `connect` gives: success, or `errno`.
pub data Connected : Type 0 where
  connected in_progress : Connected
  connect_failed : ℕ → Connected

-- Whose callbacks and message functions are registered.
pub data Layer : Type 0 where
  tcp_layer mctp_layer client_layer : Layer

-- A pointer is null or a block's address. A call whose result the program ignores gives a state
-- alone.
pub record Host (D : Type 0) : Type 0 where
  pub malloc : ℕ → D → Option ℕ × D
  pub socket : Family → D → Option ℕ × D
  pub set_no_delay : ℕ → D → D
  pub set_timeouts : ℕ → ℕ → D → D
  pub get_flags : ℕ → D → Option ℕ × D
  pub set_flags : ℕ → ℕ → D → D
  pub o_nonblock : ℕ
  pub inet_pton : List ℕ → Option ℕ
  pub connect : ℕ → ℕ → ℕ → D → Connected × D
  -- Whether the descriptor can be written to within so many milliseconds.
  pub poll : ℕ → ℕ → D → Bool × D
  -- `SO_ERROR`, or a failure of `getsockopt`.
  pub socket_error : ℕ → D → Option ℕ × D
  pub bind : ℕ → D → Bool × D
  pub context_size : ℕ
  pub init_context : Option ℕ → D → Status × D
  pub deinit_context : Option ℕ → D → D
  pub set_app_context_data : Option ℕ → D → D
  pub register_device_io_func : Layer → Option ℕ → D → D
  pub register_transport_layer_func : Layer → Option ℕ → D → D
  pub register_device_buffer_func : Layer → Option ℕ → D → D
  pub required_scratch_buffer : Option ℕ → D → ℕ
  pub set_scratch_buffer : Option ℕ → Option ℕ → ℕ → D → D
  pub set_data : Option ℕ → DataType → DataValue → D → D
  pub check_context : Option ℕ → D → Bool

pub record Machine (D : Type 0) : Type 0 where
  pub device : D
  pub blocks : List ℕ
  pub descriptors : List ℕ

-- Without the first of the elements that are `x`.
unfoldable pub erase : ℕ → List ℕ → List ℕ
erase x [] = []
erase x (y ∷ ys) = let rest = erase x ys in if y == x then ys else y ∷ rest

-- With what a call gave, if it gave something.
abbrev pub gained : Option ℕ → List ℕ → List ℕ
gained none xs = xs
gained (some x) xs = x ∷ xs

module _ {D : Type 0} where
  abbrev pub with_device : Machine D → D → Machine D
  with_device m d = record m { device = d }

  -- A call that neither gives nor takes anything back.
  abbrev pub on_device : (D → D) → Machine D → Machine D
  on_device f m = with_device m (f m.device)

  abbrev pub ask : {A : Type 0} → (D → A × D) → Machine D → A × Machine D
  ask f m = let r = f m.device in (r.0, with_device m r.1)

  -- `close` of a descriptor.
  unfoldable pub close : ℕ → Machine D → Machine D
  close fd m = record m { descriptors = erase fd m.descriptors }

  -- `free`, of which a null pointer is ignored.
  unfoldable pub free : Option ℕ → Machine D → Machine D
  free none m = m
  free (some p) m = record m { blocks = erase p m.blocks }

  module _ (host : Host D) where
    unfoldable pub malloc : ℕ → Machine D → Option ℕ × Machine D
    malloc size m =
        let r = host.malloc size m.device in
        (r.0, record m { device = r.1; blocks = gained r.0 m.blocks })

    unfoldable pub socket : Family → Machine D → Option ℕ × Machine D
    socket family m =
        let r = host.socket family m.device in
        (r.0, record m { device = r.1; descriptors = gained r.0 m.descriptors })

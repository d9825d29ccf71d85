-- ===== src/Buffers.antt =====
-- The one buffer that a transport sends and receives by: `sendReceiveBuffer` and its callbacks, in
-- requester/libspdm_tcp_transport.cpp, requester/libspdm_mctp_transport.cpp and
-- requester/spdm_simple_client.cpp.
pub mod Holder
mod Examples
use spdm_working.Common.{ℕ, List, [], ◌∷◌, Bool, true, false, replicate}
use spdm_working.Libspdm.{Status, success, invalid_state_local, acquire_fail}

-- `sendReceiveBuffer` and `sendReceiveBufferAcquired`.
pub record Buffer : Type 0 where
  pub bytes : List ℕ
  pub acquired : Bool

-- The four functions that are registered. An acquisition that succeeds gives the buffer.
pub record BufferFunctions : Type 0 where
  pub acquire_sender : Buffer → Status × Buffer
  pub release_sender : Buffer → Buffer
  pub acquire_receiver : Buffer → Status × Buffer
  pub release_receiver : Buffer → Buffer

-- An acquisition, by whether the buffer is acquired; `busy` is the status of a refusal, and `size`
-- the buffer's.
abbrev pub give : Bool → Status → ℕ → Buffer → Status × Buffer
give true busy size buffer = (busy, buffer)
give false busy size buffer = (success, record { bytes = replicate size 0; acquired = true })

unfoldable pub acquire : Status → ℕ → Buffer → Status × Buffer
acquire busy size buffer = give buffer.acquired busy size buffer

unfoldable pub release : Buffer → Buffer
release buffer = record buffer { acquired = false }

abbrev pub tcp_functions : ℕ → BufferFunctions
tcp_functions size = record {
  acquire_sender = acquire invalid_state_local size;
  release_sender = release;
  acquire_receiver = acquire invalid_state_local size;
  release_receiver = release;
}

abbrev pub mctp_functions : ℕ → BufferFunctions
mctp_functions size = record {
  acquire_sender = acquire invalid_state_local size;
  release_sender = release;
  acquire_receiver = acquire invalid_state_local size;
  release_receiver = release;
}

abbrev pub client_functions : ℕ → BufferFunctions
client_functions size = record {
  acquire_sender = acquire acquire_fail size;
  release_sender = release;
  acquire_receiver = acquire acquire_fail size;
  release_receiver = release;
}

-- What libspdm does with the functions, and with a buffer that it was given.
pub data Operation : Type 0 where
  acquires_sender releases_sender acquires_receiver releases_receiver : Operation
  fills : List ℕ → Operation

-- What an operation was to its caller.
pub data Event : Type 0 where
  granted refused released filled : Event

abbrev pub event_of : Status → Event
event_of success = granted
event_of _ = refused

unfoldable pub step : BufferFunctions → Operation → Buffer → Event × Buffer
step f acquires_sender b = let (st, b') = f.acquire_sender b in (event_of st, b')
step f releases_sender b = (released, f.release_sender b)
step f acquires_receiver b = let (st, b') = f.acquire_receiver b in (event_of st, b')
step f releases_receiver b = (released, f.release_receiver b)
step f (fills bytes) b = (filled, record b { bytes = bytes })

-- What happened, the latest first, and the buffer.
unfoldable pub run : BufferFunctions → List Operation → List Event → Buffer → List Event × Buffer
run f [] events b = (events, b)
run f (o ∷ os) events b = let (e, b') = step f o b in run f os (e ∷ events) b'

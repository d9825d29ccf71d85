-- ===== src/Tcp/Io.antt =====
-- `TcpIoClass` of requester/tcp_helper.hpp: `setSocketTimeout`, `write` and `read`. Each `while`
-- loop has fuel; `none` means that the fuel ran out, and the modules below prove how much is enough.
pub mod Timeout
pub mod Write
pub mod Read
pub mod ReadFrame
use spdm_working.Common.{
  ℕ, zero, suc, ◌+◌, ◌-◌, ◌*◌, ◌/◌, ◌%◌, ◌^◌, List, [], ◌∷◌, ◌++◌, Bool, true, false, Option, none,
  some, ltb, ◌==◌, ◌&&◌, if◌then◌else◌, length, drop, replicate,
}
use spdm_working.Common.Partial.{◌>>=◌}
use spdm_working.Libspdm.{Status, success, send_fail, receive_fail}
use spdm_working.Tcp.Frame.{load_be32, platform_header_size, tcp_max_message_size}
use spdm_working.Tcp.Socket.{
  Errno, eintr, Received, received, recv_failed, Sent, sent, send_failed, Timeval, so_rcvtimeo,
  so_sndtimeo, Socket,
}

abbrev pub timeout_us_infinite : ℕ
timeout_us_infinite = 2 ^ 64 - 1

abbrev pub min_socket_timeout_us : ℕ
min_socket_timeout_us = 5000000

-- The timeout that is set, in microseconds; 0 is none.
unfoldable pub effective_timeout : ℕ → ℕ
effective_timeout timeout =
    if timeout == timeout_us_infinite
    then 0
    else if ltb 0 timeout && ltb timeout min_socket_timeout_us
    then min_socket_timeout_us
    else timeout

unfoldable pub to_timeval : ℕ → Timeval
unfolding effective_timeout
to_timeval timeout = record {
  tv_sec = effective_timeout timeout / 1000000;
  tv_usec = effective_timeout timeout % 1000000;
}

-- What a receive loop ends with: the bytes that were wanted, or those it had when it gave up.
pub data Filled : Type 0 where
  full stopped : List ℕ → Filled

module _ (socket : Socket) where
  open socket use {State, recv, send, setsockopt}

  -- `socketFd >= 0` is `is_open`. The second option is set only if the first one was.
  unfoldable pub set_socket_timeout : Bool → ℕ → State → Bool × State
  unfolding to_timeval
  set_socket_timeout false timeout s = (false, s)
  set_socket_timeout true timeout s =
      let (done, s) = setsockopt so_rcvtimeo (to_timeval timeout) s in
      if done then setsockopt so_sndtimeo (to_timeval timeout) s else (false, s)

  -- What the body of the send loop does with the result of `send`.
  abbrev pub after_send : (ℕ → Option (Status × State)) → ℕ → State → Sent → Option (Status × State)
  after_send again total s (sent zero) = some (send_fail, s)
  after_send again total s (sent (suc n)) = again (total + suc n)
  after_send again total s (send_failed eintr) = again total
  after_send again total s (send_failed e) = some (send_fail, s)

  unfoldable pub send_loop : ℕ → List ℕ → ℕ → State → Option (Status × State)
  send_loop zero buf total s = none
  send_loop (suc fuel) buf total s = elim (ltb total (length buf)) [
    | false ↦ some (success, s)
    | true ↦
        let (r, t) = send (drop total buf) s in
        after_send (λ total'. send_loop fuel buf total' t) total t r
  ]

  unfoldable pub write : ℕ → Bool → List ℕ → ℕ → State → Option (Status × State)
  write fuel false buf timeout s = some (send_fail, s)
  write fuel true buf timeout s =
      let (done, t) = set_socket_timeout true timeout s in send_loop fuel buf 0 t

  -- What the body of a receive loop does with the result of `recv`.
  abbrev pub after_recv :
      (List ℕ → Option (Filled × State)) → List ℕ → State → Received → Option (Filled × State)
  after_recv again buf s (received []) = some (stopped buf, s)
  after_recv again buf s (received (b ∷ bytes)) = again (buf ++ b ∷ bytes)
  after_recv again buf s (recv_failed eintr) = again buf
  after_recv again buf s (recv_failed e) = some (stopped buf, s)

  -- Both loops of `read`: `buf` holds what was received so far.
  unfoldable pub recv_loop : ℕ → ℕ → List ℕ → State → Option (Filled × State)
  recv_loop zero want buf s = none
  recv_loop (suc fuel) want buf s = elim (ltb (length buf) want) [
    | false ↦ some (full buf, s)
    | true ↦
        let (r, t) = recv (want - length buf) s in
        after_recv (λ buf'. recv_loop fuel want buf' t) buf t r
  ]

  abbrev pub after_payload : List ℕ → ℕ → Filled × State → Option (Status × List ℕ × State)
  after_payload header msg_len (full payload, s) = some (success, header ++ payload, s)
  after_payload header msg_len (stopped part, s) =
      some (receive_fail, header ++ (part ++ replicate (msg_len - length part) 0), s)

  abbrev pub after_header : ℕ → Filled × State → Option (Status × List ℕ × State)
  after_header fuel (stopped part, s) = some (receive_fail, [], s)
  after_header fuel (full header, s) = do
    msg_len ← load_be32 header 8
    elim (ltb tcp_max_message_size msg_len) [
      | true ↦ some (receive_fail, [], s)
      | false ↦ recv_loop fuel msg_len [] s >>= after_payload header msg_len
    ]

  -- The status, and what `buf` holds, which is empty when `read` is called.
  unfoldable pub read : ℕ → Bool → ℕ → State → Option (Status × List ℕ × State)
  read fuel false timeout s = some (receive_fail, [], s)
  read fuel true timeout s =
      let (done, t) = set_socket_timeout true timeout s in
      recv_loop fuel platform_header_size [] t >>= after_header fuel

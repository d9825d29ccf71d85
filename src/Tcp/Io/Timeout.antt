-- ===== src/Tcp/Io/Timeout.antt =====
-- The timeout that reaches the socket.
use spdm_working.Common.{
  ℕ, ◌+◌, ◌*◌, ◌≤◌, ◌<◌, ◌≡◌, ◌↔◌, ◌⊎◌, inl, inr, true, arith, Bool-cases, ◌∙◌,
}
use spdm_working.Tcp.Socket.{SameStreams, Socket, so_rcvtimeo, so_sndtimeo}
use spdm_working.Tcp.Io.{set_socket_timeout, effective_timeout, to_timeval, timeout_us_infinite}

-- The seconds and microseconds add up to the effective timeout, the microseconds stay below one
-- second, no timeout is set exactly for the request of none or of an infinite one, and any other
-- request is honoured, but for the least of five seconds.
pub to_timeval_lem :
    (timeout : ℕ)
    → let tv = to_timeval timeout in
      let set = tv.tv_sec * 1000000 + tv.tv_usec in
      (tv.tv_usec < 1000000)
      × ((set ≡ 0) ↔ ((timeout ≡ 0) ⊎ (timeout ≡ timeout_us_infinite)))
      × ((set ≡ 0) ⊎ ((timeout ≤ set) × (5000000 ≤ set) × ((set ≡ timeout) ⊎ (set ≡ 5000000))))
unfolding to_timeval effective_timeout
to_timeval_lem timeout = ground arith

-- Setting the timeouts moves no data.
pub set_socket_timeout-SameStreams :
    (socket : Socket) (timeout : ℕ) (s : socket.State)
    → SameStreams socket.incoming socket.outgoing socket.interruptions s
        (set_socket_timeout socket true timeout s).1
unfolding set_socket_timeout
set_socket_timeout-SameStreams socket timeout s =
    let tv = to_timeval timeout in
    let t = (socket.setsockopt so_rcvtimeo tv s).1 in
    elim (Bool-cases (socket.setsockopt so_rcvtimeo tv s).0) [
      | inl e ↦ rw e (
          let (a, b, c) = socket.setsockopt-SameStreams so_rcvtimeo tv s in
          let (a', b', c') = socket.setsockopt-SameStreams so_sndtimeo tv t in
          (a' ∙ a, b' ∙ b, omega (arith, c, c')))
      | inr e ↦ rw e (socket.setsockopt-SameStreams so_rcvtimeo tv s)
    ]

-- ===== src/Tcp/Socket.antt =====
-- What requester/tcp_helper.hpp relies on of a connected stream socket: the system calls `recv`,
-- `send` and `setsockopt` are not part of the repository, and so are parameters with their
-- documented behaviour.
use spdm_working.Common.{ℕ, ◌≤◌, ◌<◌, ◌≡◌, List, ◌++◌, Bool, length, take}

-- `errno`, as far as the program tells its values apart.
pub data Errno : Type 0 where
  eintr eagain ewouldblock : Errno
  other_errno : ℕ → Errno

-- What `recv` gives: the bytes that it stored (none when the peer closed), or a failure.
pub data Received : Type 0 where
  received : List ℕ → Received
  recv_failed : Errno → Received

-- What `send` gives: how many bytes it took, or a failure.
pub data Sent : Type 0 where
  sent : ℕ → Sent
  send_failed : Errno → Sent

pub record Timeval : Type 0 where
  pub tv_sec : ℕ
  pub tv_usec : ℕ

pub data TimeoutOption : Type 0 where
  so_rcvtimeo so_sndtimeo : TimeoutOption

module _ {S : Type 0} (incoming : S → List ℕ) (outgoing : S → List ℕ) (interruptions : S → ℕ) where
  -- A call leaves both streams as they are.
  abbrev pub SameStreams : S → S → Type 0
  SameStreams s t =
      (incoming t ≡ incoming s) × (outgoing t ≡ outgoing s) × (interruptions t ≤ interruptions s)

  -- `recv` of at most `want` bytes stores the next bytes of the stream, in order.
  abbrev pub Arrives : ℕ → S → Received → S → Type 0
  Arrives want s (received bytes) t =
      (length bytes ≤ want)
      × (incoming s ≡ bytes ++ incoming t)
      × (outgoing t ≡ outgoing s)
      × (interruptions t ≤ interruptions s)
  Arrives want s (recv_failed eintr) t =
      (incoming t ≡ incoming s) × (outgoing t ≡ outgoing s) × (interruptions t < interruptions s)
  Arrives want s (recv_failed e) t = SameStreams s t

  -- `send` takes the first bytes of what it is given, in order.
  abbrev pub Departs : List ℕ → S → Sent → S → Type 0
  Departs bytes s (sent n) t =
      (n ≤ length bytes)
      × (outgoing t ≡ outgoing s ++ take n bytes)
      × (incoming t ≡ incoming s)
      × (interruptions t ≤ interruptions s)
  Departs bytes s (send_failed eintr) t =
      (incoming t ≡ incoming s) × (outgoing t ≡ outgoing s) × (interruptions t < interruptions s)
  Departs bytes s (send_failed e) t = SameStreams s t

-- `incoming` is all that the peer still delivers, `outgoing` all that was taken for the peer, and
-- `interruptions` bounds how often a signal will yet interrupt a call.
pub record Socket : Type 1 where
  pub State : Type 0
  pub recv : ℕ → State → Received × State
  pub send : List ℕ → State → Sent × State
  pub setsockopt : TimeoutOption → Timeval → State → Bool × State
  pub incoming : State → List ℕ
  pub outgoing : State → List ℕ
  pub interruptions : State → ℕ
  pub recv-Arrives :
      (want : ℕ) (s : State)
      → Arrives incoming outgoing interruptions want s (recv want s).0 (recv want s).1
  pub send-Departs :
      (bytes : List ℕ) (s : State)
      → Departs incoming outgoing interruptions bytes s (send bytes s).0 (send bytes s).1
  pub setsockopt-SameStreams :
      (o : TimeoutOption) (tv : Timeval) (s : State)
      → SameStreams incoming outgoing interruptions s (setsockopt o tv s).1

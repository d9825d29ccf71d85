-- ===== src/Tcp/Connect.antt =====
-- `TcpIoClass::createSocket` and `closeSocket` of requester/tcp_helper.hpp. `socketFd` is `none`
-- where it is negative.
pub mod Outcome
use spdm_working.Common.{
  ℕ, zero, suc, List, Option, none, some, Bool, true, false, bit_or, if◌then◌else◌,
}
use spdm_working.Machine.{
  Host, Machine, inet_stream, Connected, connected, in_progress, connect_failed, on_device, ask,
  close, socket,
}

-- The constructor's arguments.
pub record Address : Type 0 where
  pub ip_addr : List ℕ
  pub port : ℕ

abbrev pub connect_timeout_ms : ℕ
connect_timeout_ms = 5000

module _ {D : Type 0} (host : Host D) where
  -- The result and `socketFd`.
  abbrev pub Created : Type 0
  Created = (Bool × Option ℕ) × Machine D

  unfoldable pub abandon : ℕ → Machine D → Created
  abandon fd m = ((false, none), close fd m)

  -- Blocking mode again, where the flags were read.
  abbrev pub set_mode : Option ℕ → ℕ → Machine D → Machine D
  set_mode none fd m = m
  set_mode (some flags) fd m = on_device (host.set_flags fd flags) m

  abbrev pub restored : Option ℕ → ℕ → Machine D → Created
  restored flags fd m = ((true, some fd), set_mode flags fd m)

  abbrev pub after_error : Option ℕ → ℕ → Option ℕ × Machine D → Created
  after_error flags fd (none, m) = abandon fd m
  after_error flags fd (some zero, m) = restored flags fd m
  after_error flags fd (some (suc error), m) = abandon fd m

  abbrev pub after_poll : Option ℕ → ℕ → Bool × Machine D → Created
  after_poll flags fd (false, m) = abandon fd m
  after_poll flags fd (true, m) = after_error flags fd (ask (host.socket_error fd) m)

  abbrev pub after_connect : Option ℕ → ℕ → Connected × Machine D → Created
  after_connect flags fd (connected, m) = restored flags fd m
  after_connect flags fd (in_progress, m) =
      after_poll flags fd (ask (host.poll fd connect_timeout_ms) m)
  after_connect flags fd (connect_failed errno, m) = abandon fd m

  abbrev pub to_address : Option ℕ → ℕ → ℕ → Option ℕ → Machine D → Created
  to_address flags fd port none m = abandon fd m
  to_address flags fd port (some addr) m =
      after_connect flags fd (ask (host.connect fd addr port) m)

  abbrev pub nonblocking : Option ℕ → Option ℕ
  nonblocking none = none
  nonblocking (some flags) = some (bit_or flags host.o_nonblock)

  abbrev pub after_flags : Address → ℕ → Option ℕ × Machine D → Created
  after_flags address fd (flags, m) =
      to_address flags fd address.port (host.inet_pton address.ip_addr)
        (set_mode (nonblocking flags) fd m)

  abbrev pub after_socket : Address → Option ℕ × Machine D → Created
  after_socket address (none, m) = ((false, none), m)
  after_socket address (some fd, m) =
      after_flags address fd (ask (host.get_flags fd) (on_device (host.set_no_delay fd) m))

  unfoldable pub create_socket : Address → Option ℕ → Machine D → Created
  create_socket address (some fd) m = ((true, some fd), m)
  create_socket address none m = after_socket address (socket host inet_stream m)

  -- `closeSocket`, which the destructor calls too.
  unfoldable pub close_socket : Option ℕ → Machine D → Option ℕ × Machine D
  close_socket none m = (none, m)
  close_socket (some fd) m = (none, close fd m)

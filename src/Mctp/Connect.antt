-- ===== src/Mctp/Connect.antt =====
-- `MctpIoClass::createSocket` and `deleteSocket` of requester/mctp_helper.hpp. `socketFd` is `none`
-- where it is negative. The address that is bound is constant.
pub mod Outcome
use spdm_working.Common.{ℕ, Option, none, some, Bool, true, false}
use spdm_working.Machine.{Host, Machine, mctp_datagram, ask, close, socket}

module _ {D : Type 0} (host : Host D) where
  abbrev pub after_bind : ℕ → Bool × Machine D → (Bool × Option ℕ) × Machine D
  after_bind fd (true, m) = ((true, some fd), m)
  after_bind fd (false, m) = ((false, none), close fd m)

  abbrev pub after_socket : Option ℕ × Machine D → (Bool × Option ℕ) × Machine D
  after_socket (none, m) = ((false, none), m)
  after_socket (some fd, m) = after_bind fd (ask (host.bind fd) m)

  unfoldable pub create_socket : Option ℕ → Machine D → (Bool × Option ℕ) × Machine D
  create_socket (some fd) m = ((true, some fd), m)
  create_socket none m = after_socket (socket host mctp_datagram m)

  -- `deleteSocket`, which the destructor calls.
  unfoldable pub delete_socket : Option ℕ → Machine D → Option ℕ × Machine D
  delete_socket none m = (none, m)
  delete_socket (some fd) m = (none, close fd m)

-- ===== src/Client/Program.antt =====
-- `main` of requester/spdm_simple_client.cpp, for an address that its arguments give. The calls of
-- libspdm act on the machine, since they call back `spdmDeviceReceiveMessage`, which allocates a block
-- for every message.
pub mod Holdings
use spdm_working.Common.{ℕ, Option, none, some, Bool, true, false}
use spdm_working.Libspdm.{Libspdm}
use spdm_working.Machine.{Host, Machine}
use spdm_working.Tcp.Connect.{Address}
use spdm_working.Client.Context.{
  Settings, tcp_connect, tcp_disconnect, create_spdm_context, destroy_spdm_context,
}
use spdm_working.Client.Protocol.{Operations, run_spdm_protocol}

module _ {D : Type 0} (host : Host D) (lib : Libspdm (Machine D)) (operations : Operations)
    (settings : Settings) (scratch_of : Option ℕ → D → Option ℕ) where
  abbrev pub after_protocol : Option ℕ → ℕ → Bool × Machine D → Bool × Machine D
  after_protocol fd context (success, m) =
      (success, (tcp_disconnect host fd (destroy_spdm_context host scratch_of (some context) m)).1)

  abbrev pub after_create : Option ℕ → Option ℕ × Machine D → Bool × Machine D
  after_create fd (none, m) = (false, (tcp_disconnect host fd m).1)
  after_create fd (some context, m) =
      after_protocol fd context (run_spdm_protocol lib operations context m)

  abbrev pub after_connect : (Bool × Option ℕ) × Machine D → Bool × Machine D
  after_connect ((false, fd), m) = (false, m)
  after_connect ((true, fd), m) = after_create fd (create_spdm_context host settings m)

  -- Whether the exit code is `EXIT_SUCCESS`.
  unfoldable pub main : Address → Machine D → Bool × Machine D
  main address m = after_connect (tcp_connect host address m)

-- ===== src/Tcp/Connect/Outcome.antt =====
-- What `createSocket` holds when it returns.
use spdm_working.Common.{
  ℕ, zero, suc, ◌≡◌, ap, ◌∙◌, List, ◌∷◌, Option, none, some, Bool, true, false,
}
use spdm_working.Machine.{
  Host, Machine, gained, ask, on_device, Connected, connected, in_progress, connect_failed, socket,
  inet_stream,
}
use spdm_working.Machine.Ledger.{close-descriptors, close-blocks}
use spdm_working.Tcp.Connect.{
  Address, create_socket, abandon, set_mode, after_error, after_poll, after_connect, to_address,
  after_socket, nonblocking, connect_timeout_ms,
}

module _ {D : Type 0} (others blocks : List ℕ) where
  -- Success is an open socket, failure none; it is all that is held beside `others`, and no block
  -- was given or taken.
  abbrev pub HoldsSocket : (Bool × Option ℕ) × Machine D → Type 0
  HoldsSocket ((true, none), m) = ⊥
  HoldsSocket ((false, some fd), m) = ⊥
  HoldsSocket ((ok, fd), m) = (m.descriptors ≡ gained fd others) × (m.blocks ≡ blocks)

  module _ (host : Host D) (fd : ℕ) where
    -- The socket is open, and not returned yet.
    abbrev Open : Machine D → Type 0
    Open m = (m.descriptors ≡ fd ∷ others) × (m.blocks ≡ blocks)

    abandon-HoldsSocket : (m : Machine D) → Open m → HoldsSocket (abandon host fd m)
    unfolding abandon
    abandon-HoldsSocket m h = (close-descriptors fd m others h.0, close-blocks fd m ∙ h.1)

    set_mode-Open : (flags : Option ℕ) (m : Machine D) → Open m → Open (set_mode host flags fd m)
    set_mode-Open none m h = h
    set_mode-Open (some flags) m h = h

    after_error-HoldsSocket :
        (flags error : Option ℕ) (m : Machine D)
        → Open m
        → HoldsSocket (after_error host flags fd (error, m))
    after_error-HoldsSocket flags none m h = abandon-HoldsSocket m h
    after_error-HoldsSocket flags (some zero) m h = set_mode-Open flags m h
    after_error-HoldsSocket flags (some (suc e)) m h = abandon-HoldsSocket m h

    after_poll-HoldsSocket :
        (flags : Option ℕ) (ready : Bool) (m : Machine D)
        → Open m
        → HoldsSocket (after_poll host flags fd (ready, m))
    after_poll-HoldsSocket flags false m h = abandon-HoldsSocket m h
    after_poll-HoldsSocket flags true m h =
        let (error, m') = ask (host.socket_error fd) m in after_error-HoldsSocket flags error m' h

    after_connect-HoldsSocket :
        (flags : Option ℕ) (c : Connected) (m : Machine D)
        → Open m
        → HoldsSocket (after_connect host flags fd (c, m))
    after_connect-HoldsSocket flags connected m h = set_mode-Open flags m h
    after_connect-HoldsSocket flags (connect_failed e) m h = abandon-HoldsSocket m h
    after_connect-HoldsSocket flags in_progress m h =
        let (ready, m') = ask (host.poll fd connect_timeout_ms) m in
        after_poll-HoldsSocket flags ready m' h

    to_address-HoldsSocket :
        (flags : Option ℕ) (port : ℕ) (addr : Option ℕ) (m : Machine D)
        → Open m
        → HoldsSocket (to_address host flags fd port addr m)
    to_address-HoldsSocket flags port none m h = abandon-HoldsSocket m h
    to_address-HoldsSocket flags port (some addr) m h =
        let (c, m') = ask (host.connect fd addr port) m in after_connect-HoldsSocket flags c m' h

  after_socket-HoldsSocket :
      (host : Host D) (address : Address) (r : Option ℕ) (m : Machine D)
      → m.descriptors ≡ gained r others
      → m.blocks ≡ blocks
      → HoldsSocket (after_socket host address (r, m))
  after_socket-HoldsSocket host address none m d b = (d, b)
  after_socket-HoldsSocket host address (some fd) m d b =
      let (flags, m') = ask (host.get_flags fd) (on_device (host.set_no_delay fd) m) in
      to_address-HoldsSocket host fd flags address.port (host.inet_pton address.ip_addr)
        (set_mode host (nonblocking host flags) fd m')
        (set_mode-Open host fd (nonblocking host flags) m' (d, b))

  -- With a socket of its own or none, and whatever of the calls fails: `createSocket` succeeds with
  -- an open socket or fails without one, every other descriptor stays as it was, the socket that a failure
  -- had opened is closed, and no block is allocated.
  pub create_socket-HoldsSocket :
      (host : Host D) (address : Address) (fd : Option ℕ) (m : Machine D)
      → m.descriptors ≡ gained fd others
      → m.blocks ≡ blocks
      → HoldsSocket (create_socket host address fd m)
  unfolding create_socket socket
  create_socket-HoldsSocket host address (some fd) m d b = (d, b)
  create_socket-HoldsSocket host address none m d b =
      let (r, m') = socket host inet_stream m in
      after_socket-HoldsSocket host address r m' (ap (gained r) d) b

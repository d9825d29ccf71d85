-- ===== src/Tcp/Setup/Outcome.antt =====
-- What a TCP transport holds after `initialize`, and what is left of it after its end.
use spdm_working.Common.{
  ℕ, ◌≡◌, refl, subst, ap, sym, ◌∙◌, List, ◌∷◌, Option, none, some, Bool, true, false, Bool-cases,
  inl, inr,
}
use spdm_working.Libspdm.{Status}
use spdm_working.Machine.{Host, Machine, gained, malloc, free, ask, tcp_layer}
use spdm_working.Machine.Ledger.{free-blocks, free-descriptors, close-descriptors, close-blocks}
use spdm_working.Setup.{
  SpdmTransport, LacksPart, is_set, register_functions, setup_scratch_buffer, deinit_if_set,
  destroy_transport, with_scratch,
}
use spdm_working.Setup.Ledger.{deinit_if_set-SameHoldings, configure_context-SameHoldings}
use spdm_working.Tcp.Device.{is_success}
use spdm_working.Tcp.Connect.{Address, create_socket, close_socket}
use spdm_working.Tcp.Connect.Outcome.{HoldsSocket, create_socket-HoldsSocket}
use spdm_working.Tcp.Setup.{
  after_init, after_malloc, allocate_context, cleanup_context, after_scratch, after_allocate,
  after_create, initialize, destroy,
}

module _ {D : Type 0} (others sockets : List ℕ) where
  -- The socket is the transport's, beside `sockets`.
  abbrev pub Sockets : SpdmTransport → Machine D → Type 0
  Sockets t m = m.descriptors ≡ gained t.socket_fd sockets

  -- Success: a context, a scratch buffer and an open socket, whose blocks are the only new ones.
  -- Failure: no new block, and a transport that cannot be used.
  abbrev pub Initialized : Bool × SpdmTransport × Machine D → Type 0
  Initialized (true, t, m) =
      (m.blocks ≡ gained t.scratch_buffer (gained t.spdm_context others))
      × Sockets t m
      × (is_set t.scratch_buffer ≡ true)
      × (is_set t.spdm_context ≡ true)
      × (is_set t.socket_fd ≡ true)
  Initialized (false, t, m) = (m.blocks ≡ others) × Sockets t m × LacksPart t

  -- The same before there is a scratch buffer.
  abbrev Allocated : Bool × SpdmTransport × Machine D → Type 0
  Allocated (true, t, m) =
      (m.blocks ≡ gained t.spdm_context others)
      × Sockets t m
      × (is_set t.spdm_context ≡ true)
      × (is_set t.socket_fd ≡ true)
  Allocated (false, t, m) = (m.blocks ≡ others) × Sockets t m × LacksPart t

  module _ (host : Host D) where
    after_init-Allocated :
        (t : SpdmTransport) (c : ℕ) (st : Status) (m : Machine D)
        → m.blocks ≡ c ∷ others
        → Sockets t m
        → is_set t.socket_fd ≡ true
        → Allocated (after_init host t (some c) (st, m))
    after_init-Allocated t c st m b d f = elim (Bool-cases (is_success st)) [
      | inl e ↦ rw e (b, d, refl, f)
      | inr e ↦ rw e (free-blocks (some c) m others b, free-descriptors (some c) m ∙ d, inl refl)
    ]

    after_malloc-Allocated :
        (t : SpdmTransport) (r : Option ℕ) (m : Machine D)
        → m.blocks ≡ gained r others
        → Sockets t m
        → is_set t.socket_fd ≡ true
        → Allocated (after_malloc host t (r, m))
    after_malloc-Allocated t none m b d f = (b, d, inl refl)
    after_malloc-Allocated t (some c) m b d f =
        let (st, m') = ask (host.init_context (some c)) m in after_init-Allocated t c st m' b d f

    close_socket-closed :
        (fd : Option ℕ) (m : Machine D)
        → m.descriptors ≡ gained fd sockets
        → ((close_socket host fd m).0 ≡ none)
          × ((close_socket host fd m).1.descriptors ≡ sockets)
          × ((close_socket host fd m).1.blocks ≡ m.blocks)
    unfolding close_socket
    close_socket-closed none m d = (refl, d, refl)
    close_socket-closed (some fd) m d = (refl, close-descriptors fd m sockets d, close-blocks fd m)

    -- All that the transport holds is given back.
    abbrev Cleaned : SpdmTransport × Machine D → Type 0
    Cleaned (t, m) = (m.blocks ≡ others) × Sockets t m × LacksPart t

    cleanup_context-Cleaned :
        (t : SpdmTransport) (m : Machine D)
        → m.blocks ≡ gained t.scratch_buffer (gained t.spdm_context others)
        → Sockets t m
        → Cleaned (cleanup_context host t m)
    unfolding cleanup_context
    cleanup_context-Cleaned t m b d =
        let freed = free t.scratch_buffer m in
        let quiet = deinit_if_set host t.spdm_context freed in
        let same = deinit_if_set-SameHoldings host t.spdm_context freed in
        let closed = close_socket-closed t.socket_fd (free t.spdm_context quiet) (
          free-descriptors t.spdm_context quiet
          ∙ same.1
          ∙ free-descriptors t.scratch_buffer m
          ∙ d) in
        (
          closed.2
              ∙ free-blocks t.spdm_context quiet others
                  (same.0 ∙ free-blocks t.scratch_buffer m (gained t.spdm_context others) b),
          closed.1 ∙ ap (λ fd. gained fd sockets) (sym closed.0),
          inl refl,
        )

    -- The same with a scratch buffer, or with the one that was not to be had.
    abbrev Buffered : Bool × SpdmTransport × Machine D → Type 0
    Buffered (true, t, m) = Initialized (true, t, m)
    Buffered (false, t, m) =
        (m.blocks ≡ gained t.scratch_buffer (gained t.spdm_context others)) × Sockets t m

    with_scratch-Buffered :
        (size : ℕ) (t : SpdmTransport) (r : Option ℕ) (m : Machine D)
        → m.blocks ≡ gained r (gained t.spdm_context others)
        → Sockets t m
        → is_set t.spdm_context ≡ true
        → is_set t.socket_fd ≡ true
        → Buffered (with_scratch host size t (r, m))
    with_scratch-Buffered size t none m b d c f = (b, d)
    with_scratch-Buffered size t (some p) m b d c f = (b, d, refl, c, f)

    after_scratch-Initialized :
        (shift : ℕ) (ok : Bool) (t : SpdmTransport) (m : Machine D)
        → Buffered (ok, t, m)
        → Initialized (after_scratch host shift (ok, t, m))
    after_scratch-Initialized shift false t m (b, d) = cleanup_context-Cleaned t m b d
    after_scratch-Initialized shift true t m (b, d, p, c, f) =
        let same = configure_context-SameHoldings host shift t m in
        (same.0 ∙ b, same.1 ∙ d, p, c, f)

    after_allocate-Initialized :
        (shift : ℕ) (ok : Bool) (t : SpdmTransport) (m : Machine D)
        → Allocated (ok, t, m)
        → Initialized (after_allocate host shift (ok, t, m))
    unfolding setup_scratch_buffer register_functions malloc
    after_allocate-Initialized shift false t m h = h
    after_allocate-Initialized shift true t m (b, d, c, f) =
        let m' = register_functions host tcp_layer t m in
        let size = host.required_scratch_buffer t.spdm_context m'.device in
        let (r, m'') = malloc host size m' in
        let (ok, t', m3) = with_scratch host size t (r, m'') in
        after_scratch-Initialized shift ok t' m3
          (with_scratch-Buffered size t r m'' (ap (gained r) b) d c f)

    after_create-Initialized :
        (shift : ℕ) (t : SpdmTransport) (ok : Bool) (fd : Option ℕ) (m : Machine D)
        → HoldsSocket sockets others ((ok, fd), m)
        → Initialized (after_create host shift t ((ok, fd), m))
    unfolding allocate_context malloc
    after_create-Initialized shift t true none m h = absurd h
    after_create-Initialized shift t false (some fd) m h = absurd h
    after_create-Initialized shift t false none m (d, b) = (b, d, inr refl)
    after_create-Initialized shift t true (some fd) m (d, b) =
        let t' = record t { socket_fd = some fd } in
        let (r, m') = malloc host host.context_size m in
        let (ok, t'', m'') = after_malloc host t' (r, m') in
        after_allocate-Initialized shift ok t'' m''
          (after_malloc-Allocated t' r m' (ap (gained r) b) d refl)

  -- Whatever calls fail: `initialize` succeeds with a context, a scratch buffer and an open socket,
  -- and the two blocks and the socket are all that it holds beside what was held before; or it
  -- fails, frees every block that it had allocated, and leaves a transport without a context or
  -- without a socket. The socket that is open afterwards is the transport's only one.
  pub initialize-Initialized :
      (host : Host D) (shift : ℕ) (address : Address) (t : SpdmTransport) (m : Machine D)
      → m.blocks ≡ others
      → Sockets t m
      → Initialized (initialize host shift address t m)
  unfolding initialize
  initialize-Initialized host shift address t m b d =
      let ((ok, fd), m') = create_socket host address t.socket_fd m in
      after_create-Initialized host shift t ok fd m'
        (create_socket-HoldsSocket sockets others host address t.socket_fd m d b)

-- A transport that `initialize` set up, and that ends: its socket is closed and its scratch buffer
-- freed, but its context's block is not, and stays allocated with nothing that points to it.
pub destroy-initialize :
    {D : Type 0} (others sockets : List ℕ) (host : Host D) (shift : ℕ) (address : Address)
    (t t' : SpdmTransport) (m m' : Machine D)
    → m.blocks ≡ others
    → Sockets others sockets t m
    → initialize host shift address t m ≡ (true, t', m')
    → ((destroy host t' m').descriptors ≡ sockets)
      × ((destroy host t' m').blocks ≡ gained t'.spdm_context others)
      × (is_set t'.spdm_context ≡ true)
unfolding destroy destroy_transport
destroy-initialize others sockets host shift address t t' m m' b d e =
    let (b', d', p, c, f) =
      subst (Initialized others sockets) e
        (initialize-Initialized others sockets host shift address t m b d) in
    let closed = close_socket-closed others sockets host t'.socket_fd m' d' in
    let end = (close_socket host t'.socket_fd m').1 in
    let same = deinit_if_set-SameHoldings host t'.spdm_context (free t'.scratch_buffer end) in
    (
      same.1 ∙ free-descriptors t'.scratch_buffer end ∙ closed.1,
      same.0 ∙ free-blocks t'.scratch_buffer end (gained t'.spdm_context others) (closed.2 ∙ b'),
      c,
    )

-- ===== src/Client/Context/Holdings.antt =====
-- What the client holds, and that it gives it back.
use spdm_working.Common.{ℕ, ◌≡◌, ap, ◌∙◌, List, ◌∷◌, Option, none, some, Bool-cases, inl, inr}
use spdm_working.Libspdm.{Status, DataType, DataValue}
use spdm_working.Machine.{
  Host, Machine, gained, ask, on_device, Connected, connected, in_progress, connect_failed, malloc,
  socket, inet_stream, free,
}
use spdm_working.Machine.Ledger.{free-blocks, free-descriptors, close-descriptors, close-blocks}
use spdm_working.Tcp.Device.{is_success}
use spdm_working.Tcp.Connect.{Address}
use spdm_working.Tcp.Connect.Outcome.{HoldsSocket}
use spdm_working.Client.Context.{
  Settings, tcp_connect, after_connect, to_address, after_socket, abandon, configure, with_scratch,
  register, after_init, after_malloc, create_spdm_context,
}

-- `ctx->scratch_buffer` is what `libspdm_set_scratch_buffer` set, and `libspdm_set_data` keeps it.
abbrev pub Remembers : {D : Type 0} → Host D → (Option ℕ → D → Option ℕ) → Type 0
Remembers {D} host scratch_of =
    ((c p size : ℕ) (d : D)
      → scratch_of (some c) (host.set_scratch_buffer (some c) (some p) size d) ≡ some p)
    × ((c : Option ℕ) (key : DataType) (value : DataValue) (d : D)
        → scratch_of c (host.set_data c key value d) ≡ scratch_of c d)

module _ {D : Type 0} (host : Host D) (others blocks : List ℕ) where
  abandon-HoldsSocket :
      (fd : ℕ) (m : Machine D)
      → m.descriptors ≡ fd ∷ others
      → m.blocks ≡ blocks
      → HoldsSocket others blocks (abandon host fd m)
  abandon-HoldsSocket fd m d b = (close-descriptors fd m others d, close-blocks fd m ∙ b)

  to_address-HoldsSocket :
      (fd port : ℕ) (addr : Option ℕ) (m : Machine D)
      → m.descriptors ≡ fd ∷ others
      → m.blocks ≡ blocks
      → HoldsSocket others blocks (to_address host fd port addr m)
  to_address-HoldsSocket fd port none m d b = abandon-HoldsSocket fd m d b
  to_address-HoldsSocket fd port (some addr) m d b =
      let (c, m') = ask (host.connect fd addr port) m in go c m' d b
    where
      go :
          (c : Connected) (m' : Machine D)
          → m'.descriptors ≡ fd ∷ others
          → m'.blocks ≡ blocks
          → HoldsSocket others blocks (after_connect host fd (c, m'))
      go connected m' d' b' = (d', b')
      go in_progress m' d' b' = abandon-HoldsSocket fd m' d' b'
      go (connect_failed e) m' d' b' = abandon-HoldsSocket fd m' d' b'

  -- Beside `others`, the descriptors are those of the connection, if there is one; a failure has
  -- closed the socket that it had opened.
  pub tcp_connect-HoldsSocket :
      (address : Address) (m : Machine D)
      → m.descriptors ≡ others
      → m.blocks ≡ blocks
      → HoldsSocket others blocks (tcp_connect host address m)
  unfolding tcp_connect socket
  tcp_connect-HoldsSocket address m d b =
      let (r, m') = socket host inet_stream m in go r m' (ap (gained r) d) b
    where
      go :
          (r : Option ℕ) (m' : Machine D)
          → m'.descriptors ≡ gained r others
          → m'.blocks ≡ blocks
          → HoldsSocket others blocks (after_socket host address (r, m'))
      go none m' d' b' = (d', b')
      go (some fd) m' d' b' =
          to_address-HoldsSocket fd address.port (host.inet_pton address.ip_addr)
            (on_device (host.set_timeouts fd 10) (on_device (host.set_no_delay fd) m')) d' b'

  -- A context comes with the scratch buffer that it remembers; without one, nothing is held.
  abbrev pub HoldsContext : (Option ℕ → D → Option ℕ) → Option ℕ × Machine D → Type 0
  HoldsContext scratch_of (none, m) = (m.blocks ≡ blocks) × (m.descriptors ≡ others)
  HoldsContext scratch_of (some context, m) =
      ((scratch : ℕ) × (m.blocks ≡ scratch ∷ context ∷ blocks)
        × (scratch_of (some context) m.device ≡ some scratch))
      × (m.descriptors ≡ others)

  module _ (scratch_of : Option ℕ → D → Option ℕ) (remembers : Remembers host scratch_of) where
    configure-scratch :
        (settings : Settings) (context : ℕ) (m : Machine D)
        → scratch_of (some context) (configure host settings context m).device
          ≡ scratch_of (some context) m.device
    configure-scratch settings context m =
        remembers.1 (some context) _ _ _
        ∙ remembers.1 (some context) _ _ _
        ∙ remembers.1 (some context) _ _ _
        ∙ remembers.1 (some context) _ _ _

    with_scratch-HoldsContext :
        (settings : Settings) (context size : ℕ) (r : Option ℕ) (m : Machine D)
        → m.blocks ≡ gained r (context ∷ blocks)
        → m.descriptors ≡ others
        → HoldsContext scratch_of (with_scratch host settings context size (r, m))
    with_scratch-HoldsContext settings context size none m b d =
        (free-blocks (some context) m blocks b, free-descriptors (some context) m ∙ d)
    with_scratch-HoldsContext settings context size (some scratch) m b d =
        let m' =
          configure host settings context
            (on_device (host.set_scratch_buffer (some context) (some scratch) size) m) in
        let m0 = on_device (host.set_scratch_buffer (some context) (some scratch) size) m in
        let configured = configure-scratch settings context m0 in
        let kept_scratch : scratch_of (some context) m'.device ≡ some scratch =
          configured ∙ remembers.0 context scratch size m.device in
        elim (Bool-cases (host.check_context (some context) m'.device)) [
          | inl e ↦ rw e ((scratch, b, kept_scratch), d)
          | inr e ↦ rw e (
            free-blocks (some context) (free (some scratch) m') blocks
                (free-blocks (some scratch) m' (context ∷ blocks) b),
            free-descriptors (some context) (free (some scratch) m')
                ∙ free-descriptors (some scratch) m'
                ∙ d,
          )
        ]

    after_init-HoldsContext :
        (settings : Settings) (context : ℕ) (st : Status) (m : Machine D)
        → m.blocks ≡ context ∷ blocks
        → m.descriptors ≡ others
        → HoldsContext scratch_of (after_init host settings context (st, m))
    unfolding malloc
    after_init-HoldsContext settings context st m b d =
        let m' = register host context m in
        let size = host.required_scratch_buffer (some context) m'.device in
        let (r, m'') = malloc host size m' in
        elim (Bool-cases (is_success st)) [
          | inl e ↦ rw e (with_scratch-HoldsContext settings context size r m'' (ap (gained r) b) d)
          | inr e ↦
              rw e (free-blocks (some context) m blocks b, free-descriptors (some context) m ∙ d)
        ]

    -- Whatever calls fail: `createSpdmContext` gives a context, with its block and that of a scratch
    -- buffer allocated and nothing else, or null, with every block freed that it had allocated.
    pub create_spdm_context-HoldsContext :
        (settings : Settings) (m : Machine D)
        → m.blocks ≡ blocks
        → m.descriptors ≡ others
        → HoldsContext scratch_of (create_spdm_context host settings m)
    unfolding create_spdm_context malloc
    create_spdm_context-HoldsContext settings m b d =
        let (r, m') = malloc host host.context_size m in go r m' (ap (gained r) b) d
      where
        go :
            (r : Option ℕ) (m' : Machine D)
            → m'.blocks ≡ gained r blocks
            → m'.descriptors ≡ others
            → HoldsContext scratch_of (after_malloc host settings (r, m'))
        go none m' b' d' = (b', d')
        go (some context) m' b' d' =
            let (st, m'') = ask (host.init_context (some context)) m' in
            after_init-HoldsContext settings context st m'' b' d'

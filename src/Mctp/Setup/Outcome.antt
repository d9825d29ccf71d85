-- ===== src/Mctp/Setup/Outcome.antt =====
-- What an MCTP transport holds after `initialize`, and what is left of it after its end.
use spdm_working.Common.{
  ℕ, ◌≡◌, refl, ap, sym, ◌∙◌, List, ◌∷◌, Option, none, some, Bool, true, false, Bool-cases, inl,
  inr, ◌⊎◌,
}
use spdm_working.Libspdm.{Status}
use spdm_working.Machine.{Host, Machine, gained, malloc, free, ask, mctp_layer}
use spdm_working.Machine.Ledger.{free-blocks, free-descriptors}
use spdm_working.Setup.{
  SpdmTransport, LacksPart, is_set, register_functions, setup_scratch_buffer, with_scratch,
}
use spdm_working.Setup.Ledger.{deinit_if_set-SameHoldings, configure_context-SameHoldings}
use spdm_working.Tcp.Device.{is_success}
use spdm_working.Tcp.Connect.Outcome.{HoldsSocket}
use spdm_working.Mctp.Connect.{create_socket}
use spdm_working.Mctp.Connect.Outcome.{create_socket-HoldsSocket}
use spdm_working.Mctp.Setup.{
  after_init, after_malloc, allocate_context, cleanup_context, after_scratch, after_allocate,
  after_create, initialize,
}

module _ {D : Type 0} (others sockets : List ℕ) where
  abbrev pub Sockets : SpdmTransport → Machine D → Type 0
  Sockets t m = m.descriptors ≡ gained t.socket_fd sockets

  -- No new block, and a transport that lacks a part; or the context's block alone, which either was
  -- not initialized and is the transport's, or is no longer pointed to.
  abbrev pub Failure : SpdmTransport → Machine D → Type 0
  Failure t m =
      ((m.blocks ≡ others) × LacksPart t)
      ⊎ ((c : ℕ) × (m.blocks ≡ c ∷ others)
          × ((t.spdm_context ≡ some c) ⊎ ((t.spdm_context ≡ none) × (t.scratch_buffer ≡ none))))

  -- Success: a context, a scratch buffer and an open socket, whose blocks are the only new ones.
  abbrev pub Attempted : Bool × SpdmTransport × Machine D → Type 0
  Attempted (true, t, m) =
      (m.blocks ≡ gained t.scratch_buffer (gained t.spdm_context others))
      × Sockets t m
      × (is_set t.scratch_buffer ≡ true)
      × (is_set t.spdm_context ≡ true)
      × (is_set t.socket_fd ≡ true)
  Attempted (false, t, m) = Sockets t m × Failure t m

  -- The same before there is a scratch buffer.
  abbrev Allocated : Bool × SpdmTransport × Machine D → Type 0
  Allocated (true, t, m) =
      ((c : ℕ) × (t.spdm_context ≡ some c) × (m.blocks ≡ c ∷ others))
      × Sockets t m
      × (is_set t.socket_fd ≡ true)
  Allocated (false, t, m) = Sockets t m × Failure t m

  module _ (host : Host D) where
    after_init-Allocated :
        (t : SpdmTransport) (c : ℕ) (st : Status) (m : Machine D)
        → t.spdm_context ≡ some c
        → m.blocks ≡ c ∷ others
        → Sockets t m
        → is_set t.socket_fd ≡ true
        → Allocated (after_init host t (st, m))
    after_init-Allocated t c st m e b d f = elim (Bool-cases (is_success st)) [
      | inl h ↦ rw h ((c, e, b), d, f)
      | inr h ↦ rw h (d, inr (c, b, inl e))
    ]

    after_malloc-Allocated :
        (t : SpdmTransport) (r : Option ℕ) (m : Machine D)
        → m.blocks ≡ gained r others
        → Sockets t m
        → is_set t.socket_fd ≡ true
        → Allocated (after_malloc host t (r, m))
    after_malloc-Allocated t none m b d f = (d, inl (b, inl refl))
    after_malloc-Allocated t (some c) m b d f =
        let t' = record t { spdm_context = some c } in
        let (st, m') = ask (host.init_context (some c)) m in
        after_init-Allocated t' c st m' refl b d f

    -- With a scratch buffer, or with the one that was not to be had.
    abbrev Buffered : Bool × SpdmTransport × Machine D → Type 0
    Buffered (true, t, m) = Attempted (true, t, m)
    Buffered (false, t, m) =
        (t.scratch_buffer ≡ none) × Sockets t m × ((c : ℕ) × (m.blocks ≡ c ∷ others))

    with_scratch-Buffered :
        (size : ℕ) (t : SpdmTransport) (c : ℕ) (r : Option ℕ) (m : Machine D)
        → t.spdm_context ≡ some c
        → m.blocks ≡ gained r (c ∷ others)
        → Sockets t m
        → is_set t.socket_fd ≡ true
        → Buffered (with_scratch host size t (r, m))
    with_scratch-Buffered size t c none m e b d f = (refl, d, (c, b))
    with_scratch-Buffered size t c (some p) m e b d f =
        (b ∙ sym (ap (λ x. p ∷ gained x others) e), d, refl, ap is_set e, f)

    after_scratch-Attempted :
        (shift : ℕ) (ok : Bool) (t : SpdmTransport) (m : Machine D)
        → Buffered (ok, t, m)
        → Attempted (after_scratch host shift (ok, t, m))
    unfolding cleanup_context
    after_scratch-Attempted shift false t m (none_there, d, (c, b)) =
        let freed = free t.scratch_buffer m in
        let same = deinit_if_set-SameHoldings host t.spdm_context freed in
        (
          same.1 ∙ free-descriptors t.scratch_buffer m ∙ d,
          inr (
            c,
            same.0
                ∙ free-blocks t.scratch_buffer m (c ∷ others)
                    (b ∙ ap (λ x. gained x (c ∷ others)) (sym none_there)),
            inr (refl, refl),
          ),
        )
    after_scratch-Attempted shift true t m (b, d, p, c, f) =
        let same = configure_context-SameHoldings host shift t m in
        (same.0 ∙ b, same.1 ∙ d, p, c, f)

    after_allocate-Attempted :
        (shift : ℕ) (ok : Bool) (t : SpdmTransport) (m : Machine D)
        → Allocated (ok, t, m)
        → Attempted (after_allocate host shift (ok, t, m))
    unfolding setup_scratch_buffer register_functions malloc
    after_allocate-Attempted shift false t m h = h
    after_allocate-Attempted shift true t m ((c, e, b), d, f) =
        let m' = register_functions host mctp_layer t m in
        let size = host.required_scratch_buffer t.spdm_context m'.device in
        let (r, m'') = malloc host size m' in
        let (ok, t', m3) = with_scratch host size t (r, m'') in
        after_scratch-Attempted shift ok t' m3
          (with_scratch-Buffered size t c r m'' e (ap (gained r) b) d f)

    after_create-Attempted :
        (shift : ℕ) (t : SpdmTransport) (ok : Bool) (fd : Option ℕ) (m : Machine D)
        → HoldsSocket sockets others ((ok, fd), m)
        → Attempted (after_create host shift t ((ok, fd), m))
    unfolding allocate_context malloc
    after_create-Attempted shift t true none m h = absurd h
    after_create-Attempted shift t false (some fd) m h = absurd h
    after_create-Attempted shift t false none m (d, b) = (d, inl (b, inr refl))
    after_create-Attempted shift t true (some fd) m (d, b) =
        let t' = record t { socket_fd = some fd } in
        let (r, m') = malloc host host.context_size m in
        let (ok, t'', m'') = after_malloc host t' (r, m') in
        after_allocate-Attempted shift ok t'' m''
          (after_malloc-Allocated t' r m' (ap (gained r) b) d refl)

  -- Whatever calls fail: `initialize` succeeds with a context, a scratch buffer and an open socket,
  -- and the two blocks and the socket are all that it holds beside what was held before; or it
  -- fails, and either has allocated nothing and leaves a transport without a context or without a
  -- socket, or has allocated the context's block alone and not freed it: the transport then has that
  -- context, which could not be initialized, or no context and no scratch buffer. The socket
  -- that is open afterwards is the transport's only one.
  pub initialize-Attempted :
      (host : Host D) (shift : ℕ) (t : SpdmTransport) (m : Machine D)
      → m.blocks ≡ others
      → Sockets t m
      → Attempted (initialize host shift t m)
  unfolding initialize
  initialize-Attempted host shift t m b d =
      let ((ok, fd), m') = create_socket host t.socket_fd m in
      after_create-Attempted host shift t ok fd m'
        (create_socket-HoldsSocket sockets others host t.socket_fd m d b)

-- ===== src/Tcp/Setup/Rounds.antt =====
-- `initialize` called again and again on one transport, as `processDiscoveredDevices`
-- (requester/spdmd.cpp) does each time that the daemon is enabled.
use spdm_working.Common.{
  ℕ, zero, suc, ◌*◌, ◌≡◌, refl, List, [], ◌∷◌, ◌++◌, Option, none, some, Bool, true, false, arith,
  length,
}
use spdm_working.Machine.{Host, Machine, gained}
use spdm_working.Setup.{SpdmTransport, is_set}
use spdm_working.Tcp.Connect.{Address}
use spdm_working.Tcp.Setup.{initialize}
use spdm_working.Tcp.Setup.Outcome.{Sockets, Initialized, initialize-Initialized}

abbrev pub counted : Bool → ℕ → ℕ
counted true k = suc k
counted false k = k

module _ {D : Type 0} (host : Host D) (shift : ℕ) (address : Address) where
  -- So many calls, whatever each of them returns, with the number of those that succeeded.
  unfoldable pub initialize_rounds : ℕ → SpdmTransport → Machine D → ℕ × SpdmTransport × Machine D
  initialize_rounds zero t m = (0, t, m)
  initialize_rounds (suc n) t m =
      let (k, t', m') = initialize_rounds n t m in
      let (ok, t'', m'') = initialize host shift address t' m' in (counted ok k, t'', m'')

  module _ (others sockets : List ℕ) where
    -- Two blocks more for each success, and no socket beside the transport's.
    unfoldable pub Piles : ℕ × SpdmTransport × Machine D → Type 0
    Piles (k, t, m) =
        ((piled : List ℕ) × (m.blocks ≡ piled ++ others) × (length piled ≡ 2 * k))
        × Sockets others sockets t m

    one_more :
        (k : ℕ) (ok : Bool) (t : SpdmTransport) (m : Machine D) (piled : List ℕ)
        → length piled ≡ 2 * k
        → Initialized (piled ++ others) sockets (ok, t, m)
        → Piles (counted ok k, t, m)
    unfolding Piles
    one_more k false t m piled l (b, d, x) = ((piled, b, l), d)
    one_more k true t m piled l (b, d, p, c, f) = (two t.scratch_buffer t.spdm_context p c b, d)
      where
        two :
            (scratch context : Option ℕ)
            → is_set scratch ≡ true
            → is_set context ≡ true
            → m.blocks ≡ gained scratch (gained context (piled ++ others))
            → (more : List ℕ) × (m.blocks ≡ more ++ others) × (length more ≡ 2 * suc k)
        two none context p c b = absurd cc
        two (some x) none p c b = absurd cc
        two (some x) (some y) p c b = (x ∷ y ∷ piled, b, omega (arith, l))

    -- However often the set-up of one TCP transport is repeated, and whichever of the attempts fail:
    -- the blocks held are those held before and two for each attempt that succeeded, none of which is
    -- given back; and of all the sockets opened only the transport's last one is open.
    pub initialize_rounds-Piles :
        (n : ℕ) (t : SpdmTransport) (m : Machine D)
        → m.blocks ≡ others
        → Sockets others sockets t m
        → Piles (initialize_rounds n t m)
    unfolding initialize_rounds Piles
    initialize_rounds-Piles zero t m b d = (([], b, refl), d)
    initialize_rounds-Piles (suc n) t m b d =
        let (k, t', m') = initialize_rounds n t m in
        let ((piled, b', l), d') = initialize_rounds-Piles n t m b d in
        let (ok, t'', m'') = initialize host shift address t' m' in
        one_more k ok t'' m'' piled l
          (initialize-Initialized (piled ++ others) sockets host shift address t' m' b' d')

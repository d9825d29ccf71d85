-- ===== src/Fleet/Classes.antt =====
-- The two classes of transports, and that their `initialize` keeps a transport sound.
use mathlib.Core.List.Memᴰ.{head, tail}
use spdm_working.Common.{
  ℕ, ◌≡◌, inl, inr, refl, sym, subst, List, [], Option, none, some, Bool, true, false,
}
use spdm_working.Machine.{Host, Machine, gained}
use spdm_working.Setup.{SpdmTransport}
use spdm_working.Setup.Context.{Leaves}
use spdm_working.Tcp.Connect.{Address}
use spdm_working.Tcp.Setup as Tcp
use spdm_working.Tcp.Setup.Outcome as TcpOutcome
use spdm_working.Tcp.Setup.Context as TcpContext
use spdm_working.Mctp.Setup as Mctp
use spdm_working.Mctp.Setup.Outcome as MctpOutcome
use spdm_working.Mctp.Setup.Context as MctpContext
use spdm_working.Fleet.{Live, Sound, Class}

-- A context stays live while blocks are only added.
Live-gained :
    (context p : Option ℕ) (blocks : List ℕ) → Live context blocks → Live context (gained p blocks)
Live-gained none p blocks l = tt
Live-gained (some c) none blocks l = l
Live-gained (some c) (some p) blocks l = tail l

Live-own :
    (context p : Option ℕ) (blocks : List ℕ) → Live context (gained p (gained context blocks))
Live-own none p blocks = tt
Live-own (some c) none blocks = head refl
Live-own (some c) (some p) blocks = tail (head refl)

module _ {E : Type 0} where
  -- What a failure leaves is live, where the blocks from before are still there.
  failed-Live :
      (old : Option ℕ) (t : SpdmTransport) (m : Machine E)
      → Live old m.blocks
      → Leaves old (false, t, m)
      → Live t.spdm_context m.blocks
  failed-Live old t m l (inl e) = subst (λ c. Live c m.blocks) (sym e) tt
  failed-Live old t m l (inr (inl e)) = subst (λ c. Live c m.blocks) (sym e) l
  failed-Live old t m l (inr (inr (c, e, b))) = subst (λ c. Live c m.blocks) (sym e) b

  own-Live :
      (t : SpdmTransport) (m : Machine E) (others : List ℕ)
      → m.blocks ≡ gained t.scratch_buffer (gained t.spdm_context others)
      → Live t.spdm_context m.blocks
  own-Live t m others e =
      subst (Live t.spdm_context) (sym e) (Live-own t.spdm_context t.scratch_buffer others)

  module _ (others : List ℕ) (old : Option ℕ) (live : Live old others) where
    pub tcp_step :
        (ok : Bool) (t : SpdmTransport) (m : Machine E)
        → TcpOutcome.Initialized others [] (ok, t, m)
        → Leaves old (ok, t, m)
        → Sound t m.blocks m.descriptors
    tcp_step true t m (b, d, p, c, f) l = (d, own-Live t m others b)
    tcp_step false t m (b, d, rest) l = (d, failed-Live old t m (subst (Live old) (sym b) live) l)

    pub mctp_step :
        (ok : Bool) (t : SpdmTransport) (m : Machine E)
        → MctpOutcome.Attempted others [] (ok, t, m)
        → Leaves old (ok, t, m)
        → Sound t m.blocks m.descriptors
    mctp_step true t m (b, d, p, c, f) l = (d, own-Live t m others b)
    mctp_step false t m (d, inl (b, lacks)) l =
        (d, failed-Live old t m (subst (Live old) (sym b) live) l)
    mctp_step false t m (d, inr (c, b, rest)) l =
        (d, failed-Live old t m (subst (Live old) (sym b) (Live-gained old (some c) others live)) l)

  module _ (host : Host E) (shift : ℕ) where
    -- `SpdmTcpTransport`, with each transport's address.
    unfoldable pub tcp_class : (ℕ → Address) → Class E
    tcp_class addresses = record {
      initialize = λ t members m. Tcp.initialize host shift (addresses t) members m;
      initialize-Sound = λ t members m sound.
          tcp_step m.blocks members.spdm_context sound.1 _ _ _
            (TcpOutcome.initialize-Initialized m.blocks [] host shift (addresses t) members m refl
              sound.0)
            (TcpContext.initialize-Leaves host members.spdm_context shift (addresses t) members m
              refl);
    }

    -- `SpdmMctpTransport`.
    unfoldable pub mctp_class : Class E
    mctp_class = record {
      initialize = λ t members m. Mctp.initialize host shift members m;
      initialize-Sound = λ t members m sound.
          mctp_step m.blocks members.spdm_context sound.1 _ _ _
            (MctpOutcome.initialize-Attempted m.blocks [] host shift members m refl sound.0)
            (MctpContext.initialize-Leaves host members.spdm_context shift members m refl);
    }

-- ===== src/Setup/Ledger.antt =====
-- The steps of the set-up that neither allocate nor free.
use spdm_working.Common.{
  ℕ, ◌≡◌, refl, ◌==◌, ◌<<◌, u16, Option, none, some, Bool, true, false, if◌then◌else◌,
}
use spdm_working.Libspdm.{spdm_version, number}
use spdm_working.Machine.{Host, Machine, on_device}
use spdm_working.Setup.{SpdmTransport, configure_context, deinit_if_set}

module _ {D : Type 0} where
  -- The same blocks and descriptors are held.
  abbrev pub SameHoldings : Machine D → Machine D → Type 0
  SameHoldings m m' = (m'.blocks ≡ m.blocks) × (m'.descriptors ≡ m.descriptors)

  either : (b : Bool) (f : D → D) (m : Machine D) → SameHoldings m (if b then m else on_device f m)
  either true f m = (refl, refl)
  either false f m = (refl, refl)

  module _ (host : Host D) where
    pub deinit_if_set-SameHoldings :
        (c : Option ℕ) (m : Machine D) → SameHoldings m (deinit_if_set host c m)
    deinit_if_set-SameHoldings none m = (refl, refl)
    deinit_if_set-SameHoldings (some c) m = (refl, refl)

    pub configure_context-SameHoldings :
        (shift : ℕ) (t : SpdmTransport) (m : Machine D)
        → SameHoldings m (configure_context host shift t m)
    unfolding configure_context
    configure_context-SameHoldings shift t m =
        either (t.use_version == 0)
          (host.set_data t.spdm_context spdm_version (number 2 (u16 (t.use_version << shift)))) m

-- ===== src/Client/Program/Holdings.antt =====
-- What the program holds in the end.
use spdm_working.Common.{ℕ, ◌≡◌, List, ◌++◌, Option}
use spdm_working.Libspdm.{Libspdm}
use spdm_working.Machine.{Host, Machine}
use spdm_working.Machine.Ledger.{Grown}
use spdm_working.Client.Context.{Settings}
use spdm_working.Client.Protocol.{Operations, run_spdm_protocol}

module _ {D : Type 0} (host : Host D) (others blocks : List ℕ) where
  -- The same descriptors and blocks as before.
  abbrev pub GivenBack : Machine D → Type 0
  GivenBack m = (m.descriptors ≡ others) × (m.blocks ≡ blocks)

-- A call of libspdm keeps the descriptors and the scratch buffers that contexts remember, and neither
-- gives back nor takes a block itself; but the messages that are received meanwhile are in blocks
-- that `malloc` gave, which were not held before.
abbrev pub Receives : {D : Type 0} → (Option ℕ → D → Option ℕ) → Machine D → Machine D → Type 0
Receives scratch_of m m' =
    (m'.descriptors ≡ m.descriptors)
    × ((c : Option ℕ) → scratch_of c m'.device ≡ scratch_of c m.device)
    × Grown m.blocks m'.blocks

abbrev pub ReceivesOnly : {D : Type 0} → Libspdm (Machine D) → (Option ℕ → D → Option ℕ) → Type 0
ReceivesOnly {D} lib scratch_of =
    ((t : ℕ) (m : Machine D) → Receives scratch_of m (lib.init_connection t m).1)
    × ((t : ℕ) (m : Machine D) → Receives scratch_of m (lib.get_digest t m).1)
    × ((t slot : ℕ) (m : Machine D) → Receives scratch_of m (lib.get_certificate t slot m).1)
    × ((t attribute operation slot : ℕ) (m : Machine D)
        → Receives scratch_of m (lib.get_measurement t attribute operation slot m).1)

module _ {D : Type 0} (host : Host D) (others blocks : List ℕ) (lib : Libspdm (Machine D))
    (operations : Operations) (settings : Settings) (scratch_of : Option ℕ → D → Option ℕ) where
  -- What is held in the end: what was held before, or besides the blocks that were added while the
  -- protocol ran, all of them.
  pub data Leaves (m' : Machine D) : Type 0 where
    nothing_more : GivenBack host others blocks m' → Leaves m'
    messages :
        (context : ℕ) (m : Machine D) (received : List ℕ)
        → (run_spdm_protocol lib operations context m).1.blocks ≡ received ++ m.blocks
        → GivenBack host others (received ++ blocks) m'
        → Leaves m'

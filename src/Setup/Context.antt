-- ===== src/Setup/Context.antt =====
-- The context that a failed set-up leaves.
use mathlib.Core.List.{Memᴰ}
use spdm_working.Common.{ℕ, ◌≡◌, ◌⊎◌, Option, none, some, Bool, true, false}
use spdm_working.Machine.{Machine}
use spdm_working.Setup.{SpdmTransport}

-- After a failure: no context, the one from before, or one that is allocated.
abbrev pub Leaves : {D : Type 0} → Option ℕ → Bool × SpdmTransport × Machine D → Type 0
Leaves old (true, t, m) = Unit
Leaves old (false, t, m) =
    (t.spdm_context ≡ none)
    ⊎ ((t.spdm_context ≡ old) ⊎ ((c : ℕ) × (t.spdm_context ≡ some c) × Memᴰ c m.blocks))

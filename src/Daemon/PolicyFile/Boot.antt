-- ===== src/Daemon/PolicyFile/Boot.antt =====
-- What the file decides.
use spdm_working.Common.{
  ◌≡◌, refl, sym, ap, subst, ◌∙◌, List, [], ◌∷◌, ℕ, Option, none, some, Bool, true, false,
  Bool-cases, inl, inr, ◌⊎◌,
}
use mathlib.Core.Option.{some-injective}
use spdm_working.Common.Text.{codes}
use spdm_working.Libspdm.{World}
use spdm_working.Config.{SecureSessionConfig}
use spdm_working.Discovery.{same_text, find}
use spdm_working.Discovery.Values.{same_text→≡, IsMap, find-here, find-later}
use spdm_working.Daemon.{Platform, Daemon, Event, run}
use spdm_working.Daemon.Policies.{Follows, FollowsPolicy, run-FollowsPolicy}
use spdm_working.Daemon.PolicyFile.{
  Json, boolean, other_json, Cache, absent, unreadable, unparsable, items, Loaded, loaded, failed,
  terminated, after_value, load_items, load, started, boot,
}

-- By the item `enabled`: its Boolean, the default without one, and the end of the program where it
-- is no Boolean.
abbrev pub decided : Option Json → Bool → Loaded
decided none enabled = loaded enabled
decided (some (boolean b)) enabled = loaded b
decided (some other_json) enabled = terminated

decided_nothing : (enabled : Bool) → decided (find (codes "enabled") []) enabled ≡ loaded enabled
unfolding find
decided_nothing enabled = refl

pub load_items-decided :
    (entries : List (List ℕ × Json)) (enabled : Bool)
    → IsMap entries
    → load_items entries enabled ≡ decided (find (codes "enabled") entries) enabled
unfolding load_items
load_items-decided [] enabled m = sym (decided_nothing enabled)
load_items-decided ((key, value) ∷ rest) enabled (fresh, m) =
    elim (Bool-cases (same_text key (codes "enabled"))) [
      | inl e ↦
          let absent_later =
            subst (λ k. find k rest ≡ none) (same_text→≡ key (codes "enabled") e) fresh in
          rw (e, find-here (codes "enabled") key value rest e)
            (of_value value (λ b. load_items-decided rest b m ∙ ap (λ o. decided o b) absent_later))
      | inr e ↦
          rw (e, find-later (codes "enabled") key value rest e) (load_items-decided rest enabled m)
    ]
  where
    of_value :
        (v : Json)
        → ((b : Bool) → load_items rest b ≡ loaded b)
        → after_value v (load_items rest) ≡ decided (some v) enabled
    of_value (boolean b) h = h b
    of_value other_json h = refl

-- The object in the file, if it can be read, has no key twice.
abbrev pub IsObject : Cache → Type 0
IsObject (items entries) = IsMap entries
IsObject _ = Unit

-- The value that the file has for `Enabled`, if it has one, and the default if not.
abbrev pub StartsWith : Cache → Bool → Bool → Type 0
StartsWith absent default enabled = enabled ≡ default
StartsWith unreadable default enabled = ⊥
StartsWith unparsable default enabled = ⊥
StartsWith (items entries) default enabled =
    (find (codes "enabled") entries ≡ some (boolean enabled))
    ⊎ ((find (codes "enabled") entries ≡ none) × (enabled ≡ default))

of_decided :
    (o : Option Json) (default enabled : Bool)
    → decided o default ≡ loaded enabled
    → (o ≡ some (boolean enabled)) ⊎ ((o ≡ none) × (enabled ≡ default))
of_decided none default enabled e = inr (refl, cc)
of_decided (some (boolean b)) default enabled e = inl cc
of_decided (some other_json) default enabled e = absurd cc

pub load-StartsWith :
    (cache : Cache) (default enabled : Bool)
    → IsObject cache
    → load cache default ≡ loaded enabled
    → StartsWith cache default enabled
unfolding load
load-StartsWith absent default enabled m e = cc
load-StartsWith unreadable default enabled m e = absurd cc
load-StartsWith unparsable default enabled m e = absurd cc
load-StartsWith (items entries) default enabled m e =
    of_decided (find (codes "enabled") entries) default enabled
      (sym (load_items-decided entries default m) ∙ e)

-- Whatever the policy's file holds, where a JSON object has no key twice: if `main` comes to its
-- event loop, then `Enabled` is what the file says, or the default where it says nothing;
-- `SecureSessionEnabled` is the default, whatever the file says of it; and after every sequence of
-- discoveries and property changes the daemon follows the policy.
pub boot-FollowsPolicy :
    {D : Type 0} (platform : Platform D) (cfg : SecureSessionConfig) (cache : Cache)
    (enabled secure : Bool) (w : World D) (s : Daemon D) (events : List (Event platform))
    → IsObject cache
    → boot cache enabled secure w ≡ some s
    → StartsWith cache enabled s.enabled
      × (s.secure_session_enabled ≡ secure)
      × FollowsPolicy (run platform cfg events s)
unfolding boot
boot-FollowsPolicy platform cfg cache enabled secure w s events m =
    of_loaded (load cache enabled) refl
  where
    nothing_yet : (b : Bool) → Follows b secure []
    nothing_yet true = tt
    nothing_yet false = refl

    of_loaded :
        (l : Loaded)
        → load cache enabled ≡ l
        → started secure w l ≡ some s
        → StartsWith cache enabled s.enabled
          × (s.secure_session_enabled ≡ secure)
          × FollowsPolicy (run platform cfg events s)
    of_loaded (loaded b) e f =
        subst
          (λ s.
            StartsWith cache enabled s.enabled
            × (s.secure_session_enabled ≡ secure)
            × FollowsPolicy (run platform cfg events s))
          (some-injective _ _ f)
          (
            load-StartsWith cache enabled b m e,
            refl,
            run-FollowsPolicy platform cfg events _ (nothing_yet b),
          )
    of_loaded failed e f = absurd cc
    of_loaded terminated e f = absurd cc

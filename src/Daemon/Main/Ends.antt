-- ===== src/Daemon/Main/Ends.antt =====
-- How a run of the daemon ends, and what decides it.
use spdm_working.Common.{
  ◌≡◌, refl, sym, ◌∙◌, ℕ, List, [], ◌∷◌, Option, none, some, Bool, true, false, inl, inr, ◌⊎◌,
  Bool-cases, ◌&&◌, if◌then◌else◌,
}
use spdm_working.Common.Text.{codes}
use spdm_working.Exceptions.{Exception, bad_function_call}
use spdm_working.Libspdm.{World}
use spdm_working.Libspdm.Kept.{Respects}
use spdm_working.Daemon.Kept.{clear-Kept}
use spdm_working.Daemon.Main.Kept.{discover_and_run-Kept}
use spdm_working.Config.{SecureSessionConfig}
use spdm_working.Discovery.{find}
use spdm_working.Discovery.Flow.{Protocol, Callback, Flow}
use spdm_working.Daemon.{Platform, Daemon}
use spdm_working.Daemon.Policies.{Follows}
use spdm_working.Daemon.PolicyFile.{
  Json, boolean, other_json, Cache, absent, unreadable, unparsable, items, Loaded, loaded, failed,
  terminated, load,
}
use spdm_working.Daemon.PolicyFile.Boot.{
  IsObject, StartsWith, decided, load_items-decided, load-StartsWith,
}
use spdm_working.Daemon.Startup.{Step, discover_and_run}
use spdm_working.Daemon.Startup.Discovers.{answers, one_failed, discover_and_run-Discovers}
use spdm_working.Daemon.Main.{
  Exit, returned, escaped, exit_failure, exit_success, clean_up, variables, after_load, main,
}

-- The file holds no JSON, or what is no Boolean for `Enabled`.
abbrev pub Malformed : Cache → Type 0
Malformed unparsable = Unit
Malformed (items entries) = find (codes "enabled") entries ≡ some other_json
Malformed _ = ⊥

not_failed : (o : Option Json) (default : Bool) → decided o default ≡ failed → ⊥
not_failed none default e = absurd cc
not_failed (some (boolean b)) default e = absurd cc
not_failed (some other_json) default e = absurd cc

terminates :
    (o : Option Json) (default : Bool) → decided o default ≡ terminated → o ≡ some other_json
terminates none default e = absurd cc
terminates (some (boolean b)) default e = absurd cc
terminates (some other_json) default e = refl

load-failed :
    (cache : Cache) (default : Bool)
    → IsObject cache
    → load cache default ≡ failed
    → cache ≡ unreadable
unfolding load
load-failed absent default m e = absurd cc
load-failed unreadable default m e = refl
load-failed unparsable default m e = absurd cc
load-failed (items entries) default m e = absurd (
    not_failed (find (codes "enabled") entries) default
      (sym (load_items-decided entries default m) ∙ e))

load-terminated :
    (cache : Cache) (default : Bool)
    → IsObject cache
    → load cache default ≡ terminated
    → Malformed cache
unfolding load
load-terminated absent default m e = absurd cc
load-terminated unreadable default m e = absurd cc
load-terminated unparsable default m e = tt
load-terminated (items entries) default m e =
    terminates (find (codes "enabled") entries) default
      (sym (load_items-decided entries default m) ∙ e)

-- `main` runs to its end, or an exception leaves `ctx.run()`.
abbrev pub Completes : {D : Type 0} → (World D → Type 0) → Bool → Exit D → Type 0
Completes P call_failed (returned status w) = (status ≡ exit_success) × P w
Completes P call_failed escaped = call_failed ≡ true

-- How a run ends, by what the file is.
abbrev pub EndsFor :
    {D : Type 0} → (World D → Type 0) → Cache → Bool → World D → Bool → Exit D → Type 0
EndsFor P cache default w call_failed exit =
    ((cache ≡ unreadable) × (exit ≡ returned exit_failure w))
    ⊎ ((Malformed cache × (exit ≡ escaped))
        ⊎ (((enabled : Bool) × StartsWith cache default enabled) × Completes P call_failed exit))

module _ {D : Type 0} (platform : Platform D) (cfg : SecureSessionConfig) (P : World D → Type 0)
    (respects : (t : ℕ) → Respects platform.lib P t)
    (initializes : (t : ℕ) (w : World D) → P w → P (platform.initialize t w).1)
    (moved : Callback (Daemon D) → Callback (Daemon D))
    (is_empty : (f : Callback (Daemon D)) → moved f ≡ none) (then_first : Bool)
    (returns : List Exception → Bool) (when_none : returns [] ≡ true) (protocol : Protocol)
    (es : List Step) where
  -- With no call that failed, nothing is left for `ctx.run()` to throw.
  throws_only_failed :
      (errors : List Exception) (call_failed : Bool)
      → errors ≡ (if call_failed then bad_function_call ∷ [] else [])
      → returns errors ≡ false
      → call_failed ≡ true
  throws_only_failed errors true e r = refl
  throws_only_failed errors false e r = absurd cc

  clean_up-Completes :
      (fl : Flow (Daemon D))
      → P fl.client.world
      → fl.unhandled
        ≡ (if then_first && one_failed protocol (answers es) then bad_function_call ∷ [] else [])
      → Completes P
          (then_first && one_failed protocol (answers es))
          (clean_up platform cfg moved then_first returns fl)
  unfolding clean_up
  clean_up-Completes fl p u = elim (Bool-cases (returns fl.unhandled)) [
    | inl r ↦ rw r (refl, clear-Kept platform cfg P respects fl.client.responders fl.client.world p)
    | inr r ↦
        rw r (throws_only_failed fl.unhandled (then_first && one_failed protocol (answers es)) u r)
  ]

  pub main-EndsFor :
      (cache : Cache) (enabled secure : Bool) (w : World D)
      → IsObject cache
      → P w
      → EndsFor P cache enabled w
          (then_first && one_failed protocol (answers es))
          (main platform cfg moved then_first returns cache enabled secure protocol es w)
  unfolding main
  main-EndsFor cache enabled secure w m p = by_load (load cache enabled) refl
    where
      nothing_yet : (b : Bool) → Follows b secure []
      nothing_yet true = tt
      nothing_yet false = refl

      by_load :
          (l : Loaded)
          → load cache enabled ≡ l
          → EndsFor P cache enabled w
              (then_first && one_failed protocol (answers es))
              (after_load platform cfg moved then_first returns protocol es secure w l)
      by_load (loaded b) e =
          let s = variables platform cfg moved then_first returns b secure w in
          let found =
            discover_and_run-Discovers platform cfg moved then_first protocol es s is_empty refl
              (nothing_yet b) in
          let completes =
            clean_up-Completes (discover_and_run platform cfg moved then_first protocol es s)
              (discover_and_run-Kept platform cfg P respects initializes moved is_empty then_first
                protocol es s p)
              found.1 in
          inr (inr ((b, load-StartsWith cache enabled b m e), completes))
      by_load failed e = inl (load-failed cache enabled m e, refl)
      by_load terminated e = inr (inl (load-terminated cache enabled m e, refl))

-- ===== src/Config/Settings.antt =====
-- Settings made in order, and where they stop.
use spdm_working.Common.{
  ℕ, ◌≡◌, refl, List, [], ◌∷◌, ◌++◌, Bool, true, false, not, Bool-cases, inl, inr, if◌then◌else◌,
}
use spdm_working.Libspdm.{
  Libspdm, Status, success, invalid_state_local, World, call, unless_error, DataType, DataValue,
  number, dhe_name_group, aead_cipher_suite, req_base_asym_alg, key_schedule, other_params_support,
}
use spdm_working.Config.{SecureSessionConfig, check_configured, apply_algorithms}

abbrev pub Setting : Type 0
Setting = DataType × DataValue

-- The settings of a configuration behind its version: the capability flags, then the algorithms.
abbrev pub algorithm_settings : SecureSessionConfig → List Setting
algorithm_settings cfg =
    (dhe_name_group, number 2 cfg.dhe_group)
    ∷ (aead_cipher_suite, number 2 cfg.aead_cipher)
    ∷ (req_base_asym_alg, number 2 cfg.req_asym_alg)
    ∷ (key_schedule, number 2 cfg.key_schedule)
    ∷ (other_params_support, number 1 cfg.other_params_support)
    ∷ []

pub skip_guard : {A : Type 0} (b : Bool) (x y : A) → b ≡ true → (if not b then x else y) ≡ y
skip_guard b x y e = rw e refl

pub skip_test : {A : Type 0} (b : Bool) (x y : A) → b ≡ false → (if b then x else y) ≡ y
skip_test b x y e = rw e refl

module _ {D : Type 0} (lib : Libspdm D) (t : ℕ) where
  -- The settings are made in order, each without an error.
  pub data AllSet : List Setting → D → D → Type 0 where
    none_left : {d : D} → AllSet [] d d
    next_set :
        {key : DataType} {value : DataValue} {rest : List Setting} {d d' : D}
        → lib.is_error (lib.set_data t key value d).0 ≡ false
        → AllSet rest (lib.set_data t key value d).1 d'
        → AllSet ((key, value) ∷ rest) d d'

  -- One of the settings is refused with the status, after those before it were made.
  pub data RefusedAt : List Setting → D → Status × D → Type 0 where
    here :
        {key : DataType} {value : DataValue} {rest : List Setting} {d : D}
        → lib.is_error (lib.set_data t key value d).0 ≡ true
        → RefusedAt ((key, value) ∷ rest) d (lib.set_data t key value d)
    later :
        {key : DataType} {value : DataValue} {rest : List Setting} {d : D} {r : Status × D}
        → lib.is_error (lib.set_data t key value d).0 ≡ false
        → RefusedAt rest (lib.set_data t key value d).1 r
        → RefusedAt ((key, value) ∷ rest) d r

  -- Either that, or all were made and the context does not hold together.
  pub data Fails (settings : List Setting) (d : D) : Status × D → Type 0 where
    refused_at : {r : Status × D} → RefusedAt settings d r → Fails settings d r
    broken :
        {d' : D}
        → AllSet settings d d'
        → lib.check_context t d' ≡ false
        → Fails settings d (invalid_state_local, d')

  -- The settings, then the check of the context: done in full, or not.
  pub data Configured (settings : List Setting) (w : World D) : Status × World D → Type 0 where
    configured :
        {d : D}
        → AllSet settings w.device d
        → lib.check_context t d ≡ true
        → Configured settings w (success, record w { device = d })
    refused :
        {st : Status} {w' : World D}
        → lib.is_error st ≡ true
        → Fails settings w.device (st, w'.device)
        → Configured settings w (st, w')

  Fails-later :
      (key : DataType) (value : DataValue) (settings : List Setting) (d : D) (r : Status × D)
      → lib.is_error (lib.set_data t key value d).0 ≡ false
      → Fails settings (lib.set_data t key value d).1 r
      → Fails ((key, value) ∷ settings) d r
  Fails-later key value settings d r good (refused_at at) = refused_at (later good at)
  Fails-later key value settings d r good (broken all b) = broken (next_set good all) b

  pub configured_next :
      (key : DataType) (value : DataValue) (settings : List Setting) (w : World D)
      (r : Status × World D)
      → lib.is_error (lib.set_data t key value w.device).0 ≡ false
      → Configured settings (record w { device = (lib.set_data t key value w.device).1 }) r
      → Configured ((key, value) ∷ settings) w r
  configured_next key value settings w r good (configured all ok_context) =
      configured (next_set good all) ok_context
  configured_next key value settings w r good (refused bad fails) =
      refused bad (Fails-later key value settings w.device _ good fails)

  -- One call, and the rest unless it failed.
  set_then :
      (key : DataType) (value : DataValue) (settings : List Setting)
      (rest : World D → Status × World D)
      → ((w : World D) → Configured settings w (rest w))
      → (w : World D)
      → Configured
          ((key, value) ∷ settings)
          w
          (unless_error lib.is_error (call (lib.set_data t key value) w) rest)
  set_then key value settings rest k w =
      elim (Bool-cases (lib.is_error (lib.set_data t key value w.device).0)) [
        | inl bad ↦ rw bad (refused bad (refused_at (here bad)))
        | inr good ↦ rw good (configured_next key value settings w _ good (k _))
      ]

  check_configured-Configured : (w : World D) → Configured [] w (check_configured lib t w)
  unfolding check_configured
  check_configured-Configured w = elim (Bool-cases (lib.check_context t w.device)) [
    | inl fine ↦ rw fine (configured none_left fine)
    | inr bad ↦ rw bad (refused lib.invalid_state_local_is_one (broken none_left bad))
  ]

  pub apply_algorithms-Configured :
      (cfg : SecureSessionConfig) (w : World D)
      → Configured (algorithm_settings cfg) w (apply_algorithms lib t cfg w)
  unfolding apply_algorithms
  apply_algorithms-Configured cfg = set_then _ _ _ _ (
      set_then _ _ _ _
        (set_then _ _ _ _ (set_then _ _ _ _ (set_then _ _ _ _ check_configured-Configured))))

  pub AllSet-append :
      (xs ys : List Setting) (d d' d'' : D)
      → AllSet xs d d'
      → AllSet ys d' d''
      → AllSet (xs ++ ys) d d''
  AllSet-append xs ys d d' d'' none_left all = all
  AllSet-append xs ys d d' d'' (next_set good rest) all =
      next_set good (AllSet-append _ ys _ _ _ rest all)

  pub RefusedAt-append :
      (xs ys : List Setting) (d : D) (r : Status × D) → RefusedAt xs d r → RefusedAt (xs ++ ys) d r
  RefusedAt-append _ ys d _ (here bad) = here bad
  RefusedAt-append _ ys d r (later good at) = later good (RefusedAt-append _ ys _ r at)

  RefusedAt-after :
      (xs ys : List Setting) (d d' : D) (r : Status × D)
      → AllSet xs d d'
      → RefusedAt ys d' r
      → RefusedAt (xs ++ ys) d r
  RefusedAt-after _ ys d _ r none_left at = at
  RefusedAt-after _ ys d d' r (next_set good rest) at =
      later good (RefusedAt-after _ ys _ d' r rest at)

  pub Fails-after :
      (xs ys : List Setting) (d d' : D) (r : Status × D)
      → AllSet xs d d'
      → Fails ys d' r
      → Fails (xs ++ ys) d r
  Fails-after xs ys d d' r all (refused_at at) = refused_at (RefusedAt-after xs ys d d' r all at)
  Fails-after xs ys d d' _ all (broken more b) = broken (AllSet-append xs ys d d' _ all more) b

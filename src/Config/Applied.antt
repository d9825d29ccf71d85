-- ===== src/Config/Applied.antt =====
-- What `applySecureSessionConfig` has set when it succeeds.
use spdm_working.Common.{
  ℕ, zero, suc, subst, sym, ◌≡◌, ◌<<◌, List, [], ◌∷◌, ◌++◌, true, ◌==◌, u16, arith, Bool-cases, inl,
  inr,
}
use spdm_working.Libspdm.{
  Libspdm, Status, success, World, context_of, set_transport, call, unless_error, number,
  spdm_version, capability_flags,
}
use spdm_working.Config.{
  SecureSessionConfig, apply_version_config, apply_algorithms, apply_secure_session_config,
}
use spdm_working.Config.Settings.{
  Setting, algorithm_settings, skip_guard, skip_test, AllSet, none_left, next_set, RefusedAt, here,
  Fails, refused_at, Configured, configured, refused, configured_next, apply_algorithms-Configured,
  AllSet-append, RefusedAt-append, Fails-after,
}

module _ {D : Type 0} (lib : Libspdm D) (t : ℕ) where
  -- The version, where one is configured.
  abbrev pub version_settings : ℕ → ℕ → List Setting
  version_settings shift zero = []
  version_settings shift (suc n) = (spdm_version, number 2 (u16 (suc n << shift))) ∷ []

  abbrev pub settings : ℕ → SecureSessionConfig → List Setting
  settings shift cfg =
      version_settings shift cfg.version
      ++ (capability_flags, number 4 cfg.requester_cap_flags) ∷ algorithm_settings cfg

  -- The transport's members that record the version, where one is configured, and the flags.
  abbrev pub versioned : ℕ → World D → World D
  versioned zero w = w
  versioned (suc n) w = set_transport t (record (w.transports t) { use_version = suc n }) w

  abbrev pub flagged : SecureSessionConfig → World D → World D
  flagged cfg w =
      set_transport t
        (record (w.transports t) { use_requester_capability_flags = cfg.requester_cap_flags }) w

  pub data Applied (shift : ℕ) (cfg : SecureSessionConfig) (w : World D)
      : Status × World D → Type 0 where
    applied :
        {d : D}
        → AllSet lib t (settings shift cfg) w.device d
        → lib.check_context t d ≡ true
        → Applied shift cfg w
            (success, record (flagged cfg (versioned cfg.version w)) { device = d })
    not_applied :
        {st : Status} {w' : World D}
        → lib.is_error st ≡ true
        → Fails lib t (settings shift cfg) w.device (st, w'.device)
        → Applied shift cfg w (st, w')

  data Versioned (shift version : ℕ) (w : World D) : Status × World D → Type 0 where
    version_done :
        {d : D}
        → AllSet lib t (version_settings shift version) w.device d
        → Versioned shift version w (success, record (versioned version w) { device = d })
    version_refused :
        {st : Status} {w' : World D}
        → lib.is_error st ≡ true
        → RefusedAt lib t (version_settings shift version) w.device (st, w'.device)
        → Versioned shift version w (st, w')

  version_called :
      (shift n : ℕ) (w : World D)
      → Versioned shift (suc n) w (
          unless_error lib.is_error
            (call (lib.set_data t spdm_version (number 2 (u16 (suc n << shift)))) w)
            (λ w. (success, set_transport t (record (w.transports t) { use_version = suc n }) w)))
  version_called shift n w =
      elim (Bool-cases
        (lib.is_error (lib.set_data t spdm_version (number 2 (u16 (suc n << shift))) w.device).0)) [
          | inl bad ↦ rw bad (version_refused bad (here bad))
          | inr good ↦ rw good (version_done (next_set good none_left))
        ]

  apply_version_config-Versioned :
      (shift version : ℕ) (w : World D)
      → Versioned shift version w (apply_version_config lib shift t version w)
  unfolding apply_version_config
  apply_version_config-Versioned shift zero w = version_done none_left
  apply_version_config-Versioned shift (suc n) w =
      subst (Versioned shift (suc n) w) (sym (skip_test (suc n == 0) _ _ (ground arith)))
        (version_called shift n w)

  module _ (shift : ℕ) (cfg : SecureSessionConfig) (w : World D) where
    configured_all :
        (d : D) (r : Status × World D)
        → AllSet lib t (version_settings shift cfg.version) w.device d
        → Configured lib t
            ((capability_flags, number 4 cfg.requester_cap_flags) ∷ algorithm_settings cfg)
            (record (flagged cfg (versioned cfg.version w)) { device = d })
            r
        → Applied shift cfg w r
    configured_all d r all (configured more fine) =
        applied (AllSet-append lib t (version_settings shift cfg.version) _ _ _ _ all more) fine
    configured_all d r all (refused bad fails) =
        not_applied bad (Fails-after lib t (version_settings shift cfg.version) _ _ _ _ all fails)

    abbrev set_rest : World D → Status × World D
    set_rest w =
        unless_error lib.is_error
          (call (lib.set_data t capability_flags (number 4 cfg.requester_cap_flags)) w)
          (λ w. apply_algorithms lib t cfg (flagged cfg w))

    -- The recorded flags change nothing that the settings read.
    set_rest-Configured :
        (w : World D)
        → Configured lib t
            ((capability_flags, number 4 cfg.requester_cap_flags) ∷ algorithm_settings cfg)
            (flagged cfg w)
            (set_rest w)
    set_rest-Configured w =
        elim (Bool-cases (
          lib.is_error
            (lib.set_data t capability_flags (number 4 cfg.requester_cap_flags) w.device).0)) [
              | inl bad ↦ rw bad (refused bad (refused_at (here bad)))
              | inr good ↦ rw good (
                  configured_next lib t _ _ _ (flagged cfg w) _ good
                    (apply_algorithms-Configured lib t cfg _))
            ]

    after_version :
        (r : Status × World D)
        → Versioned shift cfg.version w r
        → Applied shift cfg w (unless_error lib.is_error r set_rest)
    after_version r (version_refused bad at) =
        rw bad (not_applied bad (refused_at (RefusedAt-append lib t _ _ _ _ at)))
    after_version r (version_done {d} all) =
        rw lib.success_is_none (configured_all d _ all (set_rest-Configured _))

    -- For a transport with a context: the call succeeds when the version (unless it is 0), the
    -- capability flags and the five algorithms were set in this order, each without an error, and
    -- the library's check of the context holds; then the transport has recorded the version and
    -- the flags, and no other transport has changed. Otherwise its status is an error: that of the
    -- first setting that the library refused, after those before it were made, or
    -- `INVALID_STATE_LOCAL`, where all were made and the check does not hold.
    pub apply_secure_session_config-Applied :
        context_of t w ≡ true → Applied shift cfg w (apply_secure_session_config lib shift t cfg w)
    unfolding apply_secure_session_config
    apply_secure_session_config-Applied present =
        subst (Applied shift cfg w) (sym (skip_guard (context_of t w) _ _ present))
          (after_version _ (apply_version_config-Versioned shift cfg.version w))

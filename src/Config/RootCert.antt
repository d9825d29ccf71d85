-- ===== src/Config/RootCert.antt =====
-- What `installPeerRootCert` guarantees of the trust anchor.
use spdm_working.Common.{
  ℕ, ◌≡◌, [], inl, inr, ◌⊎◌, refl, sym, subst, List, Option, none, some, true, false, arith,
  Bool-cases,
}
use spdm_working.Libspdm.{
  Libspdm, Status, success, invalid_parameter, World, context_of, Algorithms, peer_public_root_cert,
  buffer,
}
use spdm_working.Config.Settings.{skip_guard}
use spdm_working.Config.{
  SecureSessionConfig, Files, empty, get_negotiated_asym_algo, asym_algo_subdir, load_from,
  load_peer_root_cert, config_attempted, install, install_peer_root_cert,
}
use spdm_working.Config.CertFile.{FromFile, load_cert_from_file-FromFile}

module _ {D : Type 0} (lib : Libspdm D) (algorithms : Algorithms) (files : Files) (t : ℕ)
    (cfg : SecureSessionConfig) where
  -- Where the certificate comes from: the bytes of the configuration; without them the file that it
  -- names; without that the file in the folder of the algorithm that was negotiated.
  abbrev Source : World D → List ℕ → Type 0
  Source w cert =
      ((empty cfg.peer_root_cert_der ≡ false) × (cert ≡ cfg.peer_root_cert_der))
      ⊎ (((empty cfg.peer_root_cert_der ≡ true)
            × (empty cfg.peer_root_cert_der_path ≡ false)
            × (files.contents cfg.peer_root_cert_der_path ≡ some cert))
          ⊎ ((empty cfg.peer_root_cert_der ≡ true)
              × (empty cfg.peer_root_cert_der_path ≡ true)
              × ((subdir : List ℕ) × (asym_algo_subdir algorithms
                      (get_negotiated_asym_algo lib algorithms files t w).0
                    ≡ some subdir)
                  × (files.contents (
                        files.join (files.join cfg.peer_root_cert_base_dir subdir)
                          cfg.peer_root_cert_file_name)
                      ≡ some cert))))

  -- The file cannot be opened, or it is empty.
  abbrev Missing : List ℕ → Type 0
  Missing path = (files.contents path ≡ none) ⊎ (files.contents path ≡ some [])

  -- The first source that is configured gives no certificate.
  abbrev Unresolved : World D → Type 0
  Unresolved w =
      (empty cfg.peer_root_cert_der ≡ true)
      × (((empty cfg.peer_root_cert_der_path ≡ false) × Missing cfg.peer_root_cert_der_path)
          ⊎ ((empty cfg.peer_root_cert_der_path ≡ true)
              × ((asym_algo_subdir algorithms (get_negotiated_asym_algo lib algorithms files t w).0
                    ≡ none)
                  ⊎ ((subdir : List ℕ) × (asym_algo_subdir algorithms
                          (get_negotiated_asym_algo lib algorithms files t w).0
                        ≡ some subdir)
                      × Missing (
                          files.join (files.join cfg.peer_root_cert_base_dir subdir)
                            cfg.peer_root_cert_file_name)))))

  -- The outcomes where no certificate source is configured, and where one is: then either it gives
  -- no certificate, or the library refuses that, or a certificate that is not empty, of the first source that is configured, was set as
  -- the peer's root.
  pub data Anchored (w : World D) : Status × World D → Type 0 where
    no_source : config_attempted cfg ≡ false → Anchored w (success, w)
    anchor_set :
        {cert : List ℕ} {d : D}
        → config_attempted cfg ≡ true
        → empty cert ≡ false
        → Source w cert
        → lib.is_error (lib.set_data t peer_public_root_cert (buffer cert) d).0 ≡ false
        → Anchored w (
          success,
          record w { device = (lib.set_data t peer_public_root_cert (buffer cert) d).1 },
        )
    no_anchor :
        {w' : World D}
        → config_attempted cfg ≡ true
        → Unresolved w
        → Anchored w (invalid_parameter, w')
    anchor_refused :
        {cert : List ℕ} {d : D} {w' : World D}
        → config_attempted cfg ≡ true
        → Source w cert
        → lib.is_error (lib.set_data t peer_public_root_cert (buffer cert) d).0 ≡ true
        → Anchored w ((lib.set_data t peer_public_root_cert (buffer cert) d).0, w')

  abbrev Resolved : World D → Option (List ℕ) → Type 0
  Resolved w none = config_attempted cfg ≡ true → Unresolved w
  Resolved w (some cert) = (empty cert ≡ false) × Source w cert

  -- With a source configured, from any state of the devices.
  install-Anchored :
      (w w' : World D) (cert : Option (List ℕ))
      → config_attempted cfg ≡ true
      → w'.transports ≡ w.transports
      → Resolved w cert
      → Anchored w (install lib algorithms files t cfg (cert, w'))
  unfolding install
  install-Anchored w w' none given same n = rw given (no_anchor given (n given))
  install-Anchored w w' (some cert) given same (n, source) =
      elim (Bool-cases
        (lib.is_error (lib.set_data t peer_public_root_cert (buffer cert) w'.device).0)) [
          | inl bad ↦ rw bad (anchor_refused given source bad)
          | inr good ↦ rw (good, same) (anchor_set given n source good)
        ]

  file-Resolved :
      (w : World D) (cert : Option (List ℕ))
      → empty cfg.peer_root_cert_der ≡ true
      → empty cfg.peer_root_cert_der_path ≡ false
      → FromFile files cfg.peer_root_cert_der_path cert
      → Resolved w cert
  file-Resolved w none no_blob given f = λ attempted. (no_blob, inl (given, f))
  file-Resolved w (some cert) no_blob given (n, f) = (n, inr (inl (no_blob, given, f)))

  folder-Resolved :
      (w : World D) (subdir : Option (List ℕ)) (cert : Option (List ℕ))
      → empty cfg.peer_root_cert_der ≡ true
      → empty cfg.peer_root_cert_der_path ≡ true
      → asym_algo_subdir algorithms (get_negotiated_asym_algo lib algorithms files t w).0 ≡ subdir
      → load_from lib algorithms files cfg subdir ≡ cert
      → Resolved w cert
  folder-Resolved w none cert no_blob no_path algo e =
      subst (Resolved w) e (λ attempted. (no_blob, inr (no_path, inl algo)))
  folder-Resolved w (some subdir) none no_blob no_path algo e =
      let path =
        files.join (files.join cfg.peer_root_cert_base_dir subdir) cfg.peer_root_cert_file_name in
      let m = subst (FromFile files path) e (load_cert_from_file-FromFile files path) in
      λ attempted. (no_blob, inr (no_path, inr (subdir, algo, m)))
  folder-Resolved w (some subdir) (some cert) no_blob no_path algo e =
      let path =
        files.join (files.join cfg.peer_root_cert_base_dir subdir) cfg.peer_root_cert_file_name in
      let (n, f) = subst (FromFile files path) e (load_cert_from_file-FromFile files path) in
      (n, inr (inr (no_blob, no_path, (subdir, algo, f))))

  get_negotiated_asym_algo-transports :
      (w : World D)
      → (get_negotiated_asym_algo lib algorithms files t w).1.transports ≡ w.transports
  unfolding get_negotiated_asym_algo
  get_negotiated_asym_algo-transports w = refl

  nothing_attempted :
      empty cfg.peer_root_cert_der ≡ true
      → empty cfg.peer_root_cert_der_path ≡ true
      → empty cfg.peer_root_cert_base_dir ≡ true
      → config_attempted cfg ≡ true
      → ⊥
  unfolding config_attempted
  nothing_attempted no_blob no_path no_dir attempted = ground arith

  loaded-Resolved :
      (w : World D)
      → Resolved w (load_peer_root_cert lib algorithms files t cfg w).0
        × ((load_peer_root_cert lib algorithms files t cfg w).1.transports ≡ w.transports)
  unfolding load_peer_root_cert
  loaded-Resolved w = elim (Bool-cases (empty cfg.peer_root_cert_der)) [
    | inr given ↦ rw given ((given, inl (given, refl)), refl)
    | inl no_blob ↦ elim (Bool-cases (empty cfg.peer_root_cert_der_path)) [
      | inr given ↦
          rw (no_blob, given)
            (
              file-Resolved w _ no_blob given
                  (load_cert_from_file-FromFile files cfg.peer_root_cert_der_path),
              refl,
            )
      | inl no_path ↦ elim (Bool-cases (empty cfg.peer_root_cert_base_dir)) [
        | inr given ↦
            rw (no_blob, no_path, given)
              (
                folder-Resolved w _ _ no_blob no_path refl refl,
                get_negotiated_asym_algo-transports w,
              )
        | inl no_dir ↦
            rw (no_blob, no_path, no_dir)
              ((λ attempted. absurd (nothing_attempted no_blob no_path no_dir attempted)), refl)
      ]
    ]
  ]

  not_loaded :
      (w : World D)
      → config_attempted cfg ≡ false
      → load_peer_root_cert lib algorithms files t cfg w ≡ (none, w)
  unfolding load_peer_root_cert config_attempted
  not_loaded w e = ground arith

  installed_nothing :
      (w : World D)
      → config_attempted cfg ≡ false
      → Anchored w (install lib algorithms files t cfg (none, w))
  unfolding install
  installed_nothing w without = rw without (no_source without)

  -- For a transport with a context: without a configured source of the root certificate the call
  -- succeeds and does nothing. With one it succeeds only when a certificate that is not empty was
  -- set as the peer's root without an error, which is that of the first source configured: the bytes,
  -- the file named, the file for the negotiated algorithm. Otherwise the status is `INVALID_PARAMETER`, as that source
  -- gives no certificate, or the library's error, as it refuses the certificate.
  pub install_peer_root_cert-Anchored :
      (w : World D)
      → context_of t w ≡ true
      → Anchored w (install_peer_root_cert lib algorithms files t cfg w)
  unfolding install_peer_root_cert
  install_peer_root_cert-Anchored w present =
      subst (Anchored w) (sym (skip_guard (context_of t w) _ _ present))
        (elim (Bool-cases (config_attempted cfg)) [
          | inl given ↦
              let (full, same) = loaded-Resolved w in install-Anchored w _ _ given same full
          | inr without ↦ rw (not_loaded w without) (installed_nothing w without)
        ])

-- ===== src/Dependency/CredHelper/Laws.antt =====
-- When the credential helper counts as installed.
use mathlib.Core.Path.{subst}
use finch.Prelude.{
  String, Bool, true, false, ◌==◌, ==_iff, ==_self, ◌≡◌, refl, sym, ap, ◌∙◌, if◌then◌else◌, context,
  context-eq_ok, Result, ok, err, panicked, ◌↔◌,
}
use finch.Prelude.Act.{Act, pure, look, described, continue-inv, bind-inv, pure-inv, ◌>>=◌, ◌>>◌}
use finch.Dependency.CredHelper.{
  CredHost, CredHelperBin, full_install_path, cfg_path_of, cred_helper_config_name, check_hash,
  check_binary, when_there, binary_installed, names_helper, config_file_installed,
  cred_helper_installed, logged, or_not,
}

module _ (h : CredHost) (bin : CredHelperBin) where
  -- The binary is there, with the hash of the release.
  unfoldable pub IsBinary : h.World → Type 0
  IsBinary w =
      (h.dir_exists bin.hcfg.install_folder w ≡ ok true)
      × (h.file_exists (full_install_path bin) w ≡ ok true)
      × (h.open_file (full_install_path bin) w ≡ ok tt)
      × (h.digest_of (full_install_path bin) w ≡ ok bin.hcfg.hash)

  -- Docker's configuration is there and names the helper.
  unfoldable pub IsConfigured : h.World → Type 0
  IsConfigured w =
      (text : String) × (cfg : h.ConfigFile) × (h.file_exists (cfg_path_of bin) w ≡ ok true)
      × (h.open_file (cfg_path_of bin) w ≡ ok tt)
      × (h.read_file (cfg_path_of bin) w ≡ ok text)
      × (h.unmarshal text ≡ ok cfg)
      × (h.credentials_store cfg ≡ cred_helper_config_name bin)

  pub when_there-true :
      (m : Act h.World Bool) (b : Bool) (w w' : h.World)
      → when_there h m b w ≡ (ok true, w')
      → (b ≡ true) × (m w ≡ (ok true, w'))
  when_there-true m true w w' e = (refl, e)
  when_there-true m false w w' e = cc

  check_hash-true :
      (d : String) (w w' : h.World)
      → check_hash h bin d w ≡ (ok true, w')
      → (d ≡ bin.hcfg.hash) × (w ≡ w')
  check_hash-true d w w' e = go (d == bin.hcfg.hash) refl e
    where
      mismatch : Act h.World Bool
      mismatch =
          described "failed to remove mismatched cred helper binary"
            (h.remove_file (full_install_path bin))
          >> pure false

      go :
          (b : Bool)
          → (d == bin.hcfg.hash) ≡ b
          → (if b then pure true else mismatch) w ≡ (ok true, w')
          → (d ≡ bin.hcfg.hash) × (w ≡ w')
      go true q e = (==_iff d bin.hcfg.hash q, ap (λ x. x.1) e)
      go false q e =
          let (u, v, m, n) =
            bind-inv
              (described "failed to remove mismatched cred helper binary"
                (h.remove_file (full_install_path bin)))
              (λ u. pure false) w w' true e in
          let f = (pure-inv false true v w' n).0 in cc

  check_binary-true :
      (w w' : h.World)
      → check_binary h bin w ≡ (ok true, w')
      → (h.open_file (full_install_path bin) w ≡ ok tt)
        × (h.digest_of (full_install_path bin) w ≡ ok bin.hcfg.hash)
        × (w ≡ w')
  check_binary-true w w' e =
      let (d, w2, m, n) = bind-inv (opened >> hashed) (check_hash h bin) w w' true e in
      let (u, r, m') =
        continue-inv (context "failed to open cred helper binary" (h.open_file path w))
          (λ u. hashed) w w2 d m in
      let (q, v) = check_hash-true d w2 w' n in
      (
        context-eq_ok "failed to open cred helper binary" (h.open_file path w) u r,
        context-eq_ok "failed to get cred helper binary hash" (h.digest_of path w) d
              (ap (λ x. x.0) m')
            ∙ ap ok q,
        ap (λ x. x.1) m' ∙ v,
      )
    where
      path : String
      path = full_install_path bin

      opened : Act h.World (Unit {0})
      opened = described "failed to open cred helper binary" (look (h.open_file path))

      hashed : Act h.World String
      hashed = described "failed to get cred helper binary hash" (look (h.digest_of path))

  pub binary_installed-true :
      (w w' : h.World) → binary_installed h bin w ≡ (ok true, w') → IsBinary w × (w ≡ w')
  unfolding binary_installed IsBinary
  binary_installed-true w w' e =
      let (b1, r1, e1) =
        continue-inv
          (context "failed to get status of credential helper directory"
            (h.dir_exists bin.hcfg.install_folder w))
          (when_there h rest) w w' true e in
      let (t1, e2) = when_there-true rest b1 w w' e1 in
      let (b2, r2, e3) =
        continue-inv
          (context "failed to get status of credential helper binary"
            (h.file_exists (full_install_path bin) w))
          (when_there h (check_binary h bin)) w w' true e2 in
      let (t2, e4) = when_there-true (check_binary h bin) b2 w w' e3 in
      let (o, d, v) = check_binary-true w w' e4 in
      ((context-eq_ok _ _ b1 r1 ∙ ap ok t1, context-eq_ok _ _ b2 r2 ∙ ap ok t2, o, d), v)
    where
      rest : Act h.World Bool
      rest =
          described "failed to get status of credential helper binary"
            (look (h.file_exists (full_install_path bin)))
          >>= when_there h (check_binary h bin)

  binary_installed-IsBinary : (w : h.World) → IsBinary w → binary_installed h bin w ≡ (ok true, w)
  unfolding binary_installed IsBinary
  binary_installed-IsBinary w (a, b, c, d) = rw (a, b, c, d, ==_self bin.hcfg.hash) refl

  names_helper-true :
      (text : String) (w w' : h.World)
      → names_helper h bin text w ≡ (ok true, w')
      → (cfg : h.ConfigFile) × (h.unmarshal text ≡ ok cfg)
        × (h.credentials_store cfg ≡ cred_helper_config_name bin)
        × (w ≡ w')
  names_helper-true text w w' e =
      let (cfg, u, n) =
        continue-inv (h.unmarshal text)
          (λ cfg. pure (h.credentials_store cfg == cred_helper_config_name bin)) w w' true e in
      let (q, v) = pure-inv (h.credentials_store cfg == cred_helper_config_name bin) true w w' n in
      (cfg, u, ==_iff (h.credentials_store cfg) (cred_helper_config_name bin) q, v)

  pub config_file_installed-true :
      (w w' : h.World) → config_file_installed h bin w ≡ (ok true, w') → IsConfigured w × (w ≡ w')
  unfolding config_file_installed IsConfigured
  config_file_installed-true w w' e =
      let (b, r, e1) = continue-inv (h.file_exists path w) (when_there h rest) w w' true e in
      let (t, e2) = when_there-true rest b w w' e1 in
      let (text, w2, m, n) =
        bind-inv (look (h.open_file path) >> look (h.read_file path)) (names_helper h bin) w w' true
          e2 in
      let (u, o, m') =
        continue-inv (h.open_file path w) (λ u. look (h.read_file path)) w w2 text m in
      let (cfg, d, c, v) = names_helper-true text w2 w' n in
      ((text, cfg, r ∙ ap ok t, o, ap (λ x. x.0) m', d, c), ap (λ x. x.1) m' ∙ v)
    where
      path : String
      path = cfg_path_of bin

      rest : Act h.World Bool
      rest = look (h.open_file path) >> look (h.read_file path) >>= names_helper h bin

  config_file_installed-IsConfigured :
      (w : h.World) → IsConfigured w → config_file_installed h bin w ≡ (ok true, w)
  unfolding config_file_installed IsConfigured
  config_file_installed-IsConfigured w (text, cfg, a, b, c, d, e) =
      rw (a, b, c, d, e, ==_self (cred_helper_config_name bin)) refl

  logged-true :
      (m : Act h.World Bool) (w w' : h.World) → logged h m w ≡ (ok true, w') → m w ≡ (ok true, w')
  logged-true m w w' e = go (m w).0 (m w).1 e
    where
      go :
          (r : Result Bool) (v : h.World)
          → ◌≡◌ {A = Result Bool × h.World} (or_not h r, v) (ok true, w')
          → ◌≡◌ {A = Result Bool × h.World} (r, v) (ok true, w')
      go (ok b) v e = e
      go (err x) v e = cc
      go panicked v e = cc

  -- `Installed` holds exactly where the binary is there with the right hash and Docker's
  -- configuration names the helper.
  pub cred_helper_installed_iff :
      (w : h.World) → ((cred_helper_installed h bin w).0 ≡ ok true) ↔ (IsBinary w × IsConfigured w)
  unfolding cred_helper_installed
  cred_helper_installed_iff w = (to, from)
    where
      rest : Act h.World Bool
      rest = logged h (config_file_installed h bin)

      to : (cred_helper_installed h bin w).0 ≡ ok true → IsBinary w × IsConfigured w
      to e =
          let w' = (cred_helper_installed h bin w).1 in
          let (b, w1, m, n) =
            bind-inv (logged h (binary_installed h bin)) (when_there h rest) w w' true
              (λ i. (e i, w')) in
          let (t, n') = when_there-true rest b w1 w' n in
          let (x, v) =
            binary_installed-true w w1
              (logged-true (binary_installed h bin) w w1 (m ∙ ap (λ c. (ok c, w1)) t)) in
          let (y, _) =
            config_file_installed-true w1 w' (logged-true (config_file_installed h bin) w1 w' n') in
          (x, subst IsConfigured (sym v) y)

      from : IsBinary w × IsConfigured w → (cred_helper_installed h bin w).0 ≡ ok true
      from (x, y) = rw (binary_installed-IsBinary w x, config_file_installed-IsConfigured w y) refl

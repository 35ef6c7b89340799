-- ===== src/Dependency/CredHelper/Install.antt =====
-- What `Install` of the credential helper leaves.
use mathlib.Core.Path.{subst}
use finch.Prelude.{
  ◌<>◌, Bool, true, false, not, ◌||◌, ◌==◌, ==_self, ◌≡◌, refl, ap, ◌∙◌, if◌then◌else◌, ok,
}
use finch.Prelude.Act.{Act, pure, described, described-inv, bind-inv, ◌>>◌}
use finch.Dependency.CredHelper.{
  CredHost, CredHelperBin, full_install_path, cred_helper_config_name, binary_installed,
  cred_helper_installed, download, ensure_config_file, install_missing, install_cred_helper,
}
use finch.Dependency.CredHelper.Laws.{
  IsBinary, IsConfigured, binary_installed-true, cred_helper_installed_iff,
}
use finch.Dependency.CredHelper.Configured.{curl_args, IsCredHost, ensure_config_file-Sets}

module _ (h : CredHost) (bin : CredHelperBin) (k : IsCredHost h bin)
    (released : (w : h.World) → k.sent_digest bin.hcfg.cred_helper_url w ≡ bin.hcfg.hash) where
  make_folder : Act h.World (Unit {0})
  make_folder =
      described ("error creating installation directory " <> bin.hcfg.install_folder)
        (h.mkdir_all bin.hcfg.install_folder)

  fetch : Act h.World (Unit {0})
  fetch = described ("error installing binary " <> bin.hcfg.binary_name) (h.curl (curl_args h bin))

  download-IsBinary : (w w' : h.World) → download h bin w ≡ (ok tt, w') → IsBinary h bin w'
  unfolding make_folder fetch IsBinary
  download-IsBinary w w' e =
      let (u, w3, m3, n3) =
        bind-inv (make_folder >> fetch) (λ u. h.chmod (full_install_path bin)) w w' tt e in
      let (v, w4, m4, n4) = bind-inv make_folder (λ u. fetch) w w3 u m3 in
      let there = k.mkdir_all-dir w w4 (
        described-inv ("error creating installation directory " <> bin.hcfg.install_folder)
          (h.mkdir_all bin.hcfg.install_folder) w w4 tt m4) in
      let (d, f, o, digest) = k.curl_stores w4 w3 there (
        described-inv ("error installing binary " <> bin.hcfg.binary_name)
          (h.curl (curl_args h bin)) w4 w3 tt n4) in
      subst (IsBinary h bin) (ap (λ p. p.1) n3)
        (k.chmod-IsBinary w3 (d, f, o, digest ∙ ap ok (released w4)))

  -- `Install` of a helper that is asked for leaves it installed where it reports no error, and where
  -- what the server sends for the helper's URL has the hash of the release.
  pub cred_helper_installed-install_cred_helper :
      (w w' : h.World)
      → (bin.helper == "") ≡ false
      → bin.helper ≡ cred_helper_config_name bin
      → install_cred_helper h bin w ≡ (ok tt, w')
      → (cred_helper_installed h bin w').0 ≡ ok true
  unfolding install_cred_helper
  cred_helper_installed-install_cred_helper w w' e q i =
      let (b, w1, m, n) = bind-inv (binary_installed h bin) (install_missing h bin) w w' tt i in
      (cred_helper_installed_iff h bin w').1 (go b w1 m n)
    where
      asked_for : (bin.helper == "" || not (bin.helper == cred_helper_config_name bin)) ≡ false
      asked_for =
          rw
            (e, ap (λ s. s == cred_helper_config_name bin) q, ==_self (cred_helper_config_name bin))
            refl

      go :
          (b : Bool) (w1 : h.World)
          → binary_installed h bin w ≡ (ok b, w1)
          → install_missing h bin b w1 ≡ (ok tt, w')
          → IsBinary h bin w' × IsConfigured h bin w'
      go true w1 m n =
          let (x, v) = binary_installed-true h bin w w1 m in
          let (c, keep) = ensure_config_file-Sets h bin k w1 w' n in
          (keep (subst (IsBinary h bin) v x), c)
      go false w1 m n =
          let n' =
            subst
              (λ b.
                (if b then pure tt else download h bin >> ensure_config_file h bin) w1
                ≡ (ok tt, w'))
              asked_for n in
          let (u, w2, d, n2) =
            bind-inv (download h bin) (λ u. ensure_config_file h bin) w1 w' tt n' in
          let (c, keep) = ensure_config_file-Sets h bin k w2 w' n2 in
          (keep (download-IsBinary w1 w2 d), c)

-- ===== src/Dependency/CredHelper/Configured.antt =====
-- What the configuration of the credential helper says after `Install`.
use mathlib.Core.Path.{subst}
use finch.Prelude.{
  String, ◌<>◌, Bool, true, false, ◌==◌, ==_iff, ◌≡◌, refl, sym, ap, ◌∙◌, List, [], ◌∷◌,
  if◌then◌else◌, Result, ok, err, panicked,
}
use finch.Prelude.Act.{Act, pure, raise, look, continue, continue-inv, bind-inv, ◌>>=◌, ◌>>◌}
use finch.Dependency.CredHelper.{
  CredHost, CredHelperBin, full_install_path, cfg_path_of, cred_helper_config_name,
  config_file_installed, when_there, names_helper, rewrite_config, update_config, change_config,
  update_config_file, ensure_config_file,
}
use finch.Dependency.CredHelper.Laws.{IsBinary, IsConfigured, config_file_installed-true}

module _ (h : CredHost) (bin : CredHelperBin) where
  abbrev pub curl_args : List String
  curl_args =
      "--retry"
      ∷ "5"
      ∷ "--retry-max-time"
      ∷ "30"
      ∷ "--url"
      ∷ bin.hcfg.cred_helper_url
      ∷ "--output"
      ∷ full_install_path bin
      ∷ []

  -- `{"credsStore":"<helper>"}`
  abbrev pub new_config : String
  new_config = "{\"credsStore\":\"" <> (cred_helper_config_name bin <> "\"}")

  -- What the world documents: `MkdirAll` makes a directory; curl stores what the server sends, also an
  -- error page, in a directory that is there; neither `Chmod` nor a change of config.json
  -- touches the binary, what is written to an emptied file is read, and Docker's configuration reads
  -- what it writes.
  pub record IsCredHost : Type 0 where
    -- the digest of what the server sends for a URL
    pub sent_digest : String → h.World → String
    pub mkdir_all-dir :
        (w w' : h.World)
        → h.mkdir_all bin.hcfg.install_folder w ≡ (ok tt, w')
        → h.dir_exists bin.hcfg.install_folder w' ≡ ok true
    pub curl_stores :
        (w w' : h.World)
        → h.dir_exists bin.hcfg.install_folder w ≡ ok true
        → h.curl curl_args w ≡ (ok tt, w')
        → (h.dir_exists bin.hcfg.install_folder w' ≡ ok true)
          × (h.file_exists (full_install_path bin) w' ≡ ok true)
          × (h.open_file (full_install_path bin) w' ≡ ok tt)
          × (h.digest_of (full_install_path bin) w' ≡ ok (sent_digest bin.hcfg.cred_helper_url w))
    pub chmod-IsBinary :
        (w : h.World) → IsBinary h bin w → IsBinary h bin (h.chmod (full_install_path bin) w).1
    pub truncate-IsBinary :
        (w : h.World) → IsBinary h bin w → IsBinary h bin (h.truncate (cfg_path_of bin) w).1
    pub write-IsBinary :
        (text : String) (w : h.World)
        → IsBinary h bin w
        → IsBinary h bin (h.write (cfg_path_of bin) text w).1
    pub write-reads :
        (text : String) (w w1 w2 : h.World)
        → h.truncate (cfg_path_of bin) w ≡ (ok tt, w1)
        → h.write (cfg_path_of bin) text w1 ≡ (ok tt, w2)
        → (h.file_exists (cfg_path_of bin) w2 ≡ ok true)
          × (h.open_file (cfg_path_of bin) w2 ≡ ok tt)
          × (h.read_file (cfg_path_of bin) w2 ≡ ok text)
    pub unmarshal-marshal :
        (cfg : h.ConfigFile) (text : String) → h.marshal cfg ≡ ok text → h.unmarshal text ≡ ok cfg
    pub store_set :
        (cfg : h.ConfigFile)
        → h.credentials_store (h.set_credentials_store (cred_helper_config_name bin) cfg)
          ≡ cred_helper_config_name bin
    pub unmarshal_new :
        (cfg : h.ConfigFile) × (h.unmarshal new_config ≡ ok cfg)
        × (h.credentials_store cfg ≡ cred_helper_config_name bin)

  bind_world :
      {A B : Type 0} (m : Act h.World A) (f : A → Act h.World B)
      → ((w : h.World) → (m w).1 ≡ w)
      → ((a : A) (w : h.World) → (f a w).1 ≡ w)
      → (w : h.World) → ((m >>= f) w).1 ≡ w
  bind_world {A} {B} m f k l w = go (m w).0 ∙ k w
    where
      go : (r : Result A) → (continue r f (m w).1).1 ≡ (m w).1
      go (ok a) = l a (m w).1
      go (err e) = refl
      go panicked = refl

  config_file_installed_world : (w : h.World) → (config_file_installed h bin w).1 ≡ w
  unfolding config_file_installed
  config_file_installed_world =
      bind_world (look (h.file_exists (cfg_path_of bin)))
        (when_there h (reads >>= names_helper h bin)) (λ w. refl) (λ b. there b)
    where
      reads : Act h.World String
      reads = look (h.open_file (cfg_path_of bin)) >> look (h.read_file (cfg_path_of bin))

      named : (text : String) (w : h.World) → (names_helper h bin text w).1 ≡ w
      named text =
          bind_world (raise (h.unmarshal text))
            (λ cfg. pure (h.credentials_store cfg == cred_helper_config_name bin)) (λ w. refl)
            (λ cfg w. refl)

      there : (b : Bool) → (w : h.World) → (when_there h (reads >>= names_helper h bin) b w).1 ≡ w
      there true =
          bind_world reads (names_helper h bin)
            (bind_world (look (h.open_file (cfg_path_of bin)))
              (λ u. look (h.read_file (cfg_path_of bin))) (λ w. refl) (λ u w. refl))
            named
      there false = λ w. refl

  module _ (k : IsCredHost) where
    -- The file is emptied and written; the binary stays.
    abbrev pub Sets : h.World → h.World → Type 0
    Sets w w' = IsConfigured h bin w' × (IsBinary h bin w → IsBinary h bin w')

    written-Sets :
        (text : String) (cfg : h.ConfigFile) (w w1 w2 : h.World)
        → h.truncate (cfg_path_of bin) w ≡ (ok tt, w1)
        → h.write (cfg_path_of bin) text w1 ≡ (ok tt, w2)
        → h.unmarshal text ≡ ok cfg
        → h.credentials_store cfg ≡ cred_helper_config_name bin
        → Sets w w2
    unfolding IsConfigured
    written-Sets text cfg w w1 w2 t e u s =
        let (a, b, c) = k.write-reads text w w1 w2 t e in
        (
          (text, cfg, a, b, c, u, s),
          λ x. subst (IsBinary h bin) (ap (λ p. p.1) e) (
              k.write-IsBinary text w1
                (subst (IsBinary h bin) (ap (λ p. p.1) t) (k.truncate-IsBinary w x))),
        )

    rewrite_config-Sets :
        (cfg : h.ConfigFile) (w w' : h.World) → rewrite_config h bin cfg w ≡ (ok tt, w') → Sets w w'
    rewrite_config-Sets cfg w w' e =
        let new = h.set_credentials_store (cred_helper_config_name bin) cfg in
        let (text, w1, m, n) =
          bind-inv (h.truncate (cfg_path_of bin) >> raise (h.marshal new))
            (h.write (cfg_path_of bin)) w w' tt e in
        let (u, w0, t, m') =
          bind-inv (h.truncate (cfg_path_of bin)) (λ u. raise (h.marshal new)) w w1 text m in
        written-Sets text new w w1 w' (t ∙ ap (λ v. (ok tt, v)) (ap (λ p. p.1) m')) n
          (k.unmarshal-marshal new text (ap (λ p. p.0) m')) (k.store_set cfg)

    abbrev path : String
    path = cfg_path_of bin

    -- Where the file names the helper already, it stays.
    update_config-Sets :
        (text : String) (cfg : h.ConfigFile) (w w' : h.World)
        → h.file_exists (cfg_path_of bin) w ≡ ok true
        → h.open_file (cfg_path_of bin) w ≡ ok tt
        → h.read_file (cfg_path_of bin) w ≡ ok text
        → h.unmarshal text ≡ ok cfg
        → update_config h bin cfg w ≡ (ok tt, w')
        → Sets w w'
    unfolding IsConfigured
    update_config-Sets text cfg w w' a b c d e =
        go (h.credentials_store cfg == cred_helper_config_name bin) refl e
      where
        go :
            (t : Bool)
            → (h.credentials_store cfg == cred_helper_config_name bin) ≡ t
            → (if t then pure tt else rewrite_config h bin cfg) w ≡ (ok tt, w')
            → Sets w w'
        go true q e = subst (Sets w) (ap (λ p. p.1) e) (
          (text, cfg, a, b, c, d, ==_iff (h.credentials_store cfg) (cred_helper_config_name bin) q),
          λ x. x,
        )
        go false q e = rewrite_config-Sets cfg w w' e

    change_config-Sets :
        (b : Bool) (w w' : h.World)
        → h.file_exists (cfg_path_of bin) w ≡ ok b
        → change_config h bin b w ≡ (ok tt, w')
        → Sets w w'
    change_config-Sets true w w' x e =
        let (text, w2, m, n) =
          bind-inv (look (h.open_file path) >> look (h.read_file path))
            (λ text. raise (h.unmarshal text) >>= update_config h bin) w w' tt e in
        let (u, o, m') =
          continue-inv (h.open_file path w) (λ u. look (h.read_file path)) w w2 text m in
        let (cfg, d, n') = continue-inv (h.unmarshal text) (update_config h bin) w2 w' tt n in
        update_config-Sets text cfg w w' x o (ap (λ p. p.0) m') d
          (subst (λ v. update_config h bin cfg v ≡ (ok tt, w')) (sym (ap (λ p. p.1) m')) n')
    change_config-Sets false w w' x e =
        let (u, w1, t, n) =
          bind-inv (h.truncate (cfg_path_of bin)) (λ u. h.write (cfg_path_of bin) new_config) w w'
            tt e in
        let (cfg, d, s) = k.unmarshal_new in written-Sets new_config cfg w w1 w' t n d s

    pub ensure_config_file-Sets :
        (w w' : h.World) → ensure_config_file h bin w ≡ (ok tt, w') → Sets w w'
    unfolding update_config_file
    ensure_config_file-Sets w w' e =
        let (b, w1, m, n) =
          bind-inv (config_file_installed h bin)
            (λ b. if b then pure tt else update_config_file h bin) w w' tt e in
        let v = sym (ap (λ p. p.1) m) ∙ config_file_installed_world w in go b w1 v m n
      where
        go :
            (b : Bool) (w1 : h.World)
            → w1 ≡ w
            → config_file_installed h bin w ≡ (ok b, w1)
            → (if b then pure tt else update_config_file h bin) w1 ≡ (ok tt, w')
            → Sets w w'
        go true w1 v m n =
            subst (Sets w) (sym v ∙ ap (λ p. p.1) n)
              ((config_file_installed-true h bin w w1 m).0, λ x. x)
        go false w1 v m n =
            let n' = subst (λ z. update_config_file h bin z ≡ (ok tt, w')) v n in
            let (b, x, c) = continue-inv (h.file_exists path w) (change_config h bin) w w' tt n' in
            change_config-Sets b w w' x c

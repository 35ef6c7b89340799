-- ===== src/Config/Guest/Toml.antt =====
-- What `updateNerdctlConfig` leaves in nerdctl's configuration.
use finch.Prelude.{String, ◌<>◌, Bool, ◌≡◌, sym, ap, ◌∙◌, ok, ok_inj, context, context-eq_ok}
use mathlib.Core.Path.{subst}
use finch.Prelude.Act.{described, described-inv, continue-inv, bind-inv, pure-inv, ◌>>◌}
use finch.Text.FilePath.{dir}
use finch.Config.Guest.{
  GuestHost, Nerdctl, nerdctl_path, ensure_file, set_namespace, update_config_at,
  update_nerdctl_config, decode_nerdctl, save_nerdctl, make_config_dir, ensure_config,
}

module _ (h : GuestHost) where
  -- What the file system and the library document: what was written is read, making a directory
  -- leaves the files, a file that is read is found, and what was encoded is decoded.
  pub record IsTomlStore : Type 0 where
    pub write-reads :
        (path text : String) (w w' : h.World)
        → h.write_file path text w ≡ (ok tt, w')
        → h.read_file path w' ≡ ok text
    pub mkdir-reads :
        (path d : String) (w : h.World) → h.read_file path (h.mkdir_all d w).1 ≡ h.read_file path w
    pub read-stat :
        (path text : String) (w : h.World) → h.read_file path w ≡ ok text → h.stat path w ≡ ok tt
    pub unmarshal-marshal :
        (cfg : Nerdctl) (text : String) → h.marshal cfg ≡ ok text → h.unmarshal text ≡ ok cfg

  -- The file at the path holds the configuration.
  abbrev pub Holds : String → Nerdctl → h.World → Type 0
  Holds path cfg w = (text : String) × (h.read_file path w ≡ ok text) × (h.unmarshal text ≡ ok cfg)

  module _ (k : IsTomlStore) where
    same_config :
        (path : String) (w : h.World) (text text1 : String) (cfg cfg1 : Nerdctl)
        → h.read_file path w ≡ ok text
        → h.unmarshal text ≡ ok cfg
        → context ("failed to read config file " <> path) (h.read_file path w) ≡ ok text1
        → context ("failed to unmarshal config file " <> path) (h.unmarshal text1) ≡ ok cfg1
        → cfg ≡ cfg1
    same_config path w text text1 cfg cfg1 r u r1 u1 =
        let t = ok_inj text text1 (
          sym r
          ∙ context-eq_ok ("failed to read config file " <> path) (h.read_file path w) text1 r1) in
        ok_inj cfg cfg1 (
          sym u
          ∙ ap h.unmarshal t
          ∙ context-eq_ok ("failed to unmarshal config file " <> path) (h.unmarshal text1) cfg1 u1)

    set_namespace-Holds :
        (path : String) (cfg : Nerdctl) (w w' : h.World)
        → Holds path cfg w
        → set_namespace h path w ≡ (ok tt, w')
        → Holds path (record cfg { namespace = "finch" }) w'
    unfolding set_namespace
    set_namespace-Holds path cfg w w' (text, r, u) e =
        let (text1, r1, n1) =
          continue-inv (context ("failed to read config file " <> path) (h.read_file path w))
            (decode_nerdctl h path) w w' tt e in
        let (cfg1, u1, n2) =
          continue-inv (context ("failed to unmarshal config file " <> path) (h.unmarshal text1))
            (save_nerdctl h path) w w' tt n1 in
        let (out, m, n3) =
          continue-inv
            (context ("failed to marshal config file " <> path)
              (h.marshal (record cfg1 { namespace = "finch" })))
            (λ out. described ("failed to write to config file " <> path) (h.write_file path out)) w
            w' tt n2 in
        subst (λ c. Holds path (record c { namespace = "finch" }) w')
          (sym (same_config path w text text1 cfg cfg1 r u r1 u1))
          (
            out,
            k.write-reads path out w w' (
                described-inv ("failed to write to config file " <> path) (h.write_file path out) w
                  w' tt n3),
            k.unmarshal-marshal (record cfg1 { namespace = "finch" }) out
                (context-eq_ok ("failed to marshal config file " <> path)
                  (h.marshal (record cfg1 { namespace = "finch" })) out m),
          )

    update_config_at-Holds :
        (path : String) (cfg : Nerdctl) (w w' : h.World)
        → Holds path cfg w
        → update_config_at h path w ≡ (ok tt, w')
        → Holds path (record cfg { namespace = "finch" }) w'
    unfolding update_config_at
    update_config_at-Holds path cfg w w' (text, r, u) e =
        let (u1, w2, m, n) =
          bind-inv (make_config_dir h path >> ensure_config h path) (λ u. set_namespace h path) w w'
            tt e in
        let (u2, w1, m1, n1) =
          bind-inv (make_config_dir h path) (λ u. ensure_config h path) w w2 u1 m in
        let made =
          described-inv ("failed to create config dir " <> path) (h.mkdir_all (dir path)) w w1 u2
            m1 in
        let r1 = ap (λ x. h.read_file path x.1) (sym made) ∙ k.mkdir-reads path (dir path) w ∙ r in
        let kept =
          subst (λ s. ensure_file h path s w1 ≡ (ok u1, w2)) (k.read-stat path text w1 r1) n1 in
        set_namespace-Holds path cfg w2 w'
          (text, ap (h.read_file path) (sym (pure-inv tt u1 w1 w2 kept).1) ∙ r1, u) n

    -- Where `updateNerdctlConfig` succeeds on a file that decodes to a configuration, the file
    -- decodes afterwards to the same one, but for the namespace, which is finch's. This says nothing
    -- of what the program does not decode, such as comments and keys that it does not know.
    pub update_nerdctl_config-Holds :
        (home_dir : String) (rootless : Bool) (cfg : Nerdctl) (w w' : h.World)
        → Holds (nerdctl_path h home_dir rootless) cfg w
        → update_nerdctl_config h home_dir rootless w ≡ (ok tt, w')
        → Holds (nerdctl_path h home_dir rootless) (record cfg { namespace = "finch" }) w'
    unfolding update_nerdctl_config
    update_nerdctl_config-Holds home_dir rootless cfg w w' =
        update_config_at-Holds (nerdctl_path h home_dir rootless) cfg w w'

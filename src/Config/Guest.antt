-- ===== src/Config/Guest.antt =====
-- pkg/config/nerdctl_config_applier.go: what finch configures inside the machine, over SFTP.
pub mod Lines
pub mod Bashrc
pub mod Toml
use finch.Prelude.{
  ◌>>=◌ as ◌>>=?◌, Bool, not, String, ◌<>◌, true, false, ◌==◌, Option, none, some, List, [], ◌∷◌,
  ◌++◌, map, if◌then◌else◌, get_elem?, Error, is_not_exist, Result, ok, err, panicked,
}
use finch.Prelude.Act.{Act, pure, raise, look, described, ◌>>=◌, ◌>>◌}
use finch.Text.{contains_text, split, trim_right_byte}
use finch.Text.FilePath.{join_path, dir}
use finch.Config.Types.{Finch}
use finch.Config.Guest.Lines.{env_lines}

-- `Nerdctl` of config.go
pub record Nerdctl : Type 0 where
  pub debug : Bool
  pub debug_full : Bool
  pub address : String
  pub namespace : String
  pub snapshotter : String
  pub cni_path : String
  pub cni_net_conf_path : String
  pub data_root : String
  pub cgroup_manager : String
  pub insecure_registry : Bool
  pub hosts_dir : List String

-- The machine's file system over SFTP, the way there, and the library for TOML.
pub record GuestHost : Type 1 where
  pub World : Type 0
  pub read_file : String → World → Result String
  pub write_file : String → String → Act World (Unit {0})
  pub mkdir_all : String → Act World (Unit {0})
  pub stat : String → World → Result (Unit {0})
  -- the file system of the host
  pub read_local : String → World → Result String
  pub unmarshal : String → Result Nerdctl
  pub marshal : Nerdctl → Result String
  -- `fssh.NewClientConfig(fs, user, privateKeyPath)`
  pub new_client_config : String → String → Act World (Unit {0})
  -- `dialer.Dial("tcp", remoteAddr, sshCfg)` and `sftp.NewClient(sshClient)`
  pub dial : String → Act World (Unit {0})
  pub new_sftp_client : Act World (Unit {0})

-- `*cfg.VMType`
abbrev pub deref : Option String → Result String
deref none = panicked
deref (some t) = ok t

-- The two variables of `getLimaHomeDir`.
pub record LimaEnv : Type 0 where
  pub user : String
  pub home : String

-- `strings.Split(l, "=")[1]`
abbrev pub value_of_line : String → Result String
value_of_line l = elim (get_elem? (split l b'=') 1) [ none ↦ panicked | some v ↦ ok v ]

-- What a line of lima.env says.
unfoldable pub env_line : LimaEnv → String → Result LimaEnv
unfolding contains_text split
env_line e l =
    if contains_text l "LIMA_CIDATA_USER"
    then (value_of_line l >>=? λ v. ok (record e { user = v }))
    else if contains_text l "LIMA_CIDATA_HOME"
    then (value_of_line l >>=? λ v. ok (record e { home = v }))
    else ok e

unfoldable pub scan_env : LimaEnv → List String → Result LimaEnv
scan_env e [] = ok e
scan_env e (l ∷ ls) = env_line e l >>=? λ e'. scan_env e' ls

abbrev pub home_of : LimaEnv → String
unfolding ◌==◌
home_of e = if not (e.home == "") then e.home else "/home/" <> (e.user <> ".linux")

abbrev pub home_in : String → Result String
unfolding scan_env
home_in text =
    scan_env (record { user = ""; home = "" }) (split text b'\n') >>=? λ e. ok (home_of e)

module _ (h : GuestHost) where
  -- `getLimaHomeDir`
  unfoldable pub get_lima_home_dir : String → Finch → Act h.World String
  unfolding ◌==◌
  get_lima_home_dir lima_instance_dir cfg = raise (deref cfg.vm_type) >>= λ t.
      look (
        if t == "wsl2"
        then h.read_local (join_path (lima_instance_dir ∷ "cidata" ∷ "lima.env" ∷ []))
        else h.read_file "/mnt/lima-cidata/lima.env")
      >>= λ text. raise (home_in text)

  -- `addLineToBashrc`
  unfoldable pub add_line_to_bashrc : String → String → String → Act h.World String
  unfolding contains_text
  add_line_to_bashrc path prof cmd =
      if contains_text prof cmd
      then pure prof
      else described "failed to write to profile file" (h.write_file path (prof <> ("\n" <> cmd)))
        >> pure (prof <> ("\n" <> cmd))

  -- The loop of `updateEnvironment`.
  unfoldable pub add_lines : String → String → List String → Act h.World String
  add_lines path prof [] = pure prof
  add_lines path prof (c ∷ cs) = add_line_to_bashrc path prof c >>= λ p. add_lines path p cs

  abbrev pub bashrc_of : String → String
  bashrc_of lima_home = lima_home <> "/.bashrc"

  -- `updateEnvironment`
  unfoldable pub update_environment : Finch → String → String → String → Act h.World (Unit {0})
  update_environment fc finch_dir home_dir lima_home = raise (deref fc.vm_type) >>= λ t.
      described ("failed to read config file " <> bashrc_of lima_home)
        (look (h.read_file (bashrc_of lima_home)))
      >>= λ prof.
          add_lines (bashrc_of lima_home) prof
            (env_lines t fc.creds_helpers finch_dir home_dir lima_home)
          >> pure tt

  abbrev pub nerdctl_path : String → Bool → String
  nerdctl_path home_dir rootless =
      if rootless then home_dir <> "/.config/nerdctl/nerdctl.toml" else "/etc/nerdctl/nerdctl.toml"

  -- An empty file is made where there is none; any other answer of `Stat` is ignored.
  abbrev pub ensure_file : String → Result (Unit {0}) → Act h.World (Unit {0})
  ensure_file path (ok u) = pure tt
  ensure_file path (err e) =
      if is_not_exist e
      then described ("failed to create " <> path) (h.write_file path "")
      else pure tt
  ensure_file path panicked = raise panicked

  -- Writes the configuration with the namespace of finch.
  abbrev pub save_nerdctl : String → Nerdctl → Act h.World (Unit {0})
  save_nerdctl path cfg =
      described ("failed to marshal config file " <> path)
        (raise (h.marshal (record cfg { namespace = "finch" })))
      >>= λ out. described ("failed to write to config file " <> path) (h.write_file path out)

  abbrev pub decode_nerdctl : String → String → Act h.World (Unit {0})
  decode_nerdctl path text =
      described ("failed to unmarshal config file " <> path) (raise (h.unmarshal text))
      >>= save_nerdctl path

  unfoldable pub set_namespace : String → Act h.World (Unit {0})
  set_namespace path =
      described ("failed to read config file " <> path) (look (h.read_file path))
      >>= decode_nerdctl path

  abbrev pub ensure_config : String → Act h.World (Unit {0})
  ensure_config path w = ensure_file path (h.stat path w) w

  abbrev pub make_config_dir : String → Act h.World (Unit {0})
  make_config_dir path = described ("failed to create config dir " <> path) (h.mkdir_all (dir path))

  unfoldable pub update_config_at : String → Act h.World (Unit {0})
  unfolding set_namespace
  update_config_at path = make_config_dir path >> ensure_config path >> set_namespace path

  -- `updateNerdctlConfig`
  unfoldable pub update_nerdctl_config : String → Bool → Act h.World (Unit {0})
  unfolding update_config_at
  update_nerdctl_config home_dir rootless = update_config_at (nerdctl_path home_dir rootless)

  -- `Apply`
  unfoldable pub apply_in_guest :
      String → String → String → String → Finch → String → Act h.World (Unit {0})
  unfolding get_lima_home_dir update_nerdctl_config update_environment
  apply_in_guest private_key finch_dir home_dir lima_instance fc remote_addr =
      described "failed to create ssh client config" (h.new_client_config "root" private_key)
      >> described "failed to setup ssh client" (h.dial remote_addr)
      >> described "failed to setup sftp client" h.new_sftp_client
      >> described "failed to get lima home dir" (get_lima_home_dir lima_instance fc)
      >>= λ lima_home.
          described "failed to update the nerdctl config file"
            (update_nerdctl_config lima_home false)
          >> described "failed to update the user's .profile file"
              (update_environment fc finch_dir home_dir lima_home)

-- ===== src/Dependency/Vmnet.antt =====
-- pkg/dependency/vmnet: the parts that need root for a network between the machine and its host.
pub mod Guarded
use finch.Prelude.{
  String, ◌<>◌, Bool, true, false, not, ◌&&◌, ◌==◌, Option, none, some, List, [], ◌∷◌, lookup,
  if◌then◌else◌, Error, message, wrapped, Result, ok, err, panicked,
}
use finch.Dependency.{Installer, Group}

-- The commands on the host, limactl, the files, and the library for YAML.
pub record NetHost : Type 1 where
  pub World : Type 0
  pub dir_exists : String → World → Result Bool
  pub read_file : String → World → Result String
  -- `cmdCreator.Create(args...).Output()`, with what stands on the standard input
  pub run_command : List String → String → World → Option Error × World
  -- `CreateWithoutStdio("sudoers").Output()`
  pub lima_sudoers : World → Result String
  -- `OpenFile(path, O_APPEND|O_CREATE|O_WRONLY)` and `WriteString(text)`
  pub append_file : String → String → World → Option Error × World
  -- `yaml.Unmarshal` into `NetworkConfig`: the networks
  pub networks_of : String → Result (List (List (String × String)))
  -- `fp`, and `fp.LimaDefaultConfigPath()`
  pub finch : String
  pub lima_default_config_path : String

-- What `newDeps` makes.
pub data NetDependency : Type 0 where
  binaries sudoers_file default_lima_config : NetDependency

abbrev pub installation_path : String
installation_path = "/opt/finch"

abbrev pub socket_vmnet_exe : String
socket_vmnet_exe = installation_path <> "/bin/socket_vmnet"

abbrev pub sudoers_path : String
sudoers_path = "/etc/sudoers.d/finch-lima"

abbrev pub network_config_string : String
network_config_string = "networks:\n  - lima: finch-shared\n"

module _ (h : NetHost) where
  abbrev pub then_step :
      String → (h.World → Option Error × h.World) → Option Error → h.World → Option Error × h.World
  then_step c k none w = k w
  then_step c k (some e) w = (some (wrapped c e), w)

  -- A step that ends with an error ends the installation; the error says what was tried.
  abbrev pub step :
      String
      → (h.World → Option Error × h.World)
      → (h.World → Option Error × h.World)
      → h.World
      → Option Error × h.World
  step c m k w = let (e, w') = m w in then_step c k e w'

  abbrev pub done : h.World → Option Error × h.World
  done w = (none, w)

  abbrev pub build_artifact_path : String
  build_artifact_path = h.finch <> "/dependencies/lima-socket_vmnet"

  abbrev pub same_text : Result String → Result String → Bool
  same_text (ok a) (ok b) = a == b
  same_text (ok a) (err e) = false
  same_text (ok a) panicked = false
  same_text (err e) r = false
  same_text panicked r = false

  abbrev pub is_found : Result Bool → Bool
  is_found (ok b) = b
  is_found (err e) = false
  is_found panicked = false

  -- `binaries.Installed`
  unfoldable pub binaries_installed : h.World → Bool
  binaries_installed w =
      is_found (h.dir_exists installation_path w)
      && same_text (h.read_file (build_artifact_path <> socket_vmnet_exe) w)
          (h.read_file socket_vmnet_exe w)

  -- `binaries.Install`
  unfoldable pub install_binaries : h.World → Option Error × h.World
  install_binaries =
      step ("error creating installation directory " <> installation_path)
        (h.run_command ("sudo" ∷ "mkdir" ∷ "-p" ∷ installation_path ∷ []) "")
        (step ("error copying files to directory " <> installation_path)
          (h.run_command
            ("sudo" ∷ "cp" ∷ "-rp" ∷ (build_artifact_path <> installation_path) ∷ "/opt" ∷ []) "")
          (step ("error changing owner of directory " <> installation_path)
            (h.run_command ("sudo" ∷ "chown" ∷ "root:wheel" ∷ installation_path ∷ []) "")
            (step ("error changing owner of files in directory " <> (installation_path <> "/bin"))
              (h.run_command
                ("sudo" ∷ "chown" ∷ "-R" ∷ "root:wheel" ∷ (installation_path <> "/bin") ∷ []) "")
              (step "error setting correct permissions for socket_vmnet binary"
                (h.run_command ("sudo" ∷ "chmod" ∷ "755" ∷ socket_vmnet_exe ∷ []) "") done))))

  -- `sudoersFile.Installed`
  unfoldable pub sudoers_installed : h.World → Bool
  sudoers_installed w = same_text (h.read_file sudoers_path w) (h.lima_sudoers w)

  abbrev pub write_sudoers : Result String → h.World → Option Error × h.World
  write_sudoers (ok sudoers) =
      step "failed to write to the sudoers file"
        (h.run_command ("sudo" ∷ "tee" ∷ sudoers_path ∷ []) sudoers)
        (step "failed to set correct permissions for sudoers file"
          (h.run_command ("sudo" ∷ "chmod" ∷ "644" ∷ sudoers_path ∷ []) "") done)
  write_sudoers (err e) = λ w. (some (wrapped "failed to get lima sudoers" e), w)
  write_sudoers panicked = done

  -- `sudoersFile.Install`
  unfoldable pub install_sudoers : h.World → Option Error × h.World
  install_sudoers w = write_sudoers (h.lima_sudoers w) w

  -- `Networks[0]["lima"] == "finch-shared"`, where there is one network
  abbrev pub is_shared : List (List (String × String)) → Bool
  is_shared [] = false
  is_shared (n ∷ []) = names (lookup "lima" n)
    where
      names : Option String → Bool
      names none = false
      names (some s) = s == "finch-shared"
  is_shared (n ∷ (m ∷ ns)) = false

  abbrev pub has_network : Result (List (List (String × String))) → Bool
  has_network (ok ns) = is_shared ns
  has_network (err e) = false
  has_network panicked = false

  abbrev pub section_in : Result String → Bool
  section_in (ok text) = has_network (h.networks_of text)
  section_in (err e) = false
  section_in panicked = false

  -- `verifyConfigHasNetworkSection` at the default configuration, which is what `Installed` asks
  unfoldable pub verify_config_has_network_section : h.World → Bool
  verify_config_has_network_section w = section_in (h.read_file h.lima_default_config_path w)

  -- `shouldAddNetworksConfig`
  unfoldable pub should_add_networks_config : h.World → Bool
  unfolding binaries_installed sudoers_installed
  should_add_networks_config w = binaries_installed w && sudoers_installed w

  -- `appendNetworkConfiguration`, and `defaultLimaConfig.Install` around it
  unfoldable pub install_network_config : h.World → Option Error × h.World
  unfolding should_add_networks_config
  install_network_config w =
      if should_add_networks_config w
      then step ("error opening file at path " <> h.lima_default_config_path)
          (h.append_file h.lima_default_config_path network_config_string) done w
      else (
        some (
            message
              "skipping installation of network configuration because pre-requisites are missing"),
        w,
      )

  abbrev pub net_installed : NetDependency → h.World → Bool
  net_installed binaries = binaries_installed
  net_installed sudoers_file = sudoers_installed
  net_installed default_lima_config = verify_config_has_network_section

  abbrev pub net_install : NetDependency → h.World → Option Error × h.World
  net_install binaries = install_binaries
  net_install sudoers_file = install_sudoers
  net_install default_lima_config = install_network_config

  abbrev pub net_requires_root : NetDependency → h.World → Bool
  net_requires_root binaries w = true
  net_requires_root sudoers_file w = true
  net_requires_root default_lima_config w = false

  -- The three as what `InstallOptionalDeps` installs.
  abbrev pub net_installer : Installer
  net_installer = record {
    World = h.World;
    Dependency = NetDependency;
    requires_root = net_requires_root;
    installed = net_installed;
    install = net_install;
  }

  -- `NewDependencyGroup`; the configuration comes last, since it needs the other two.
  abbrev pub net_group : Group net_installer
  net_group = record {
    deps = some binaries ∷ some sudoers_file ∷ some default_lima_config ∷ [];
    desc = "Requesting root access to finish network dependency configuration";
    err_msg =
        "Failed to finish installing rootful dependencies which are needed for external network access within the guest OS. Boot will continue, but container exposed ports will not be accessible from macOS.";
  }

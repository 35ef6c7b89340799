-- ===== src/Dependency/Vmnet/Guarded.antt =====
-- The configuration for the network never stands without the parts that it needs.
use finch.Prelude.{
  String, Bool, true, false, ◌&&◌, Option, none, some, List, [], ◌∷◌, ◌≡◌, refl, sym, ap, ◌∙◌,
  Error, message, ◌<>◌, if◌then◌else◌, Result, ok, err, panicked,
}
use finch.Dependency.{Group, Progress, install_optional_deps}
use finch.Dependency.Invariant.{install_optional_deps-kept}
use finch.Dependency.Vmnet.{
  NetHost, NetDependency, binaries, sudoers_file, default_lima_config, network_config_string, step,
  then_step, done, binaries_installed, install_binaries, sudoers_installed, install_sudoers,
  write_sudoers, section_in, verify_config_has_network_section, should_add_networks_config,
  install_network_config, net_installed, net_install, net_installer,
}

-- The commands that make a directory, copy into /opt, and set owners and modes, and the one that
-- writes the file for sudo. None of them names another file to be written.
pub data IsPartCommand : List String → Type 0 where
  mkdir : IsPartCommand ("sudo" ∷ "mkdir" ∷ "-p" ∷ "/opt/finch" ∷ [])
  cp : (source : String) → IsPartCommand ("sudo" ∷ "cp" ∷ "-rp" ∷ source ∷ "/opt" ∷ [])
  chown : IsPartCommand ("sudo" ∷ "chown" ∷ "root:wheel" ∷ "/opt/finch" ∷ [])
  chown_all : IsPartCommand ("sudo" ∷ "chown" ∷ "-R" ∷ "root:wheel" ∷ "/opt/finch/bin" ∷ [])
  chmod : IsPartCommand ("sudo" ∷ "chmod" ∷ "755" ∷ "/opt/finch/bin/socket_vmnet" ∷ [])
  tee : IsPartCommand ("sudo" ∷ "tee" ∷ "/etc/sudoers.d/finch-lima" ∷ [])
  chmod_sudoers : IsPartCommand ("sudo" ∷ "chmod" ∷ "644" ∷ "/etc/sudoers.d/finch-lima" ∷ [])

module _ (h : NetHost) where
  -- Where Lima's default configuration has the network, its parts are installed.
  unfoldable pub IsGuarded : h.World → Type 0
  IsGuarded w =
      verify_config_has_network_section h w ≡ true
      → (binaries_installed h w ≡ true) × (sudoers_installed h w ≡ true)

  -- None of these commands touches Lima's configuration, and what is appended to that file touches nothing
  -- else.
  pub record IsNetHost : Type 0 where
    pub run_command-config :
        (args : List String) (input : String) (w : h.World)
        → IsPartCommand args
        → h.read_file h.lima_default_config_path (h.run_command args input w).1
          ≡ h.read_file h.lima_default_config_path w
    pub append_file-binaries :
        (text : String) (w : h.World)
        → binaries_installed h w ≡ true
        → binaries_installed h (h.append_file h.lima_default_config_path text w).1 ≡ true
    pub append_file-sudoers :
        (text : String) (w : h.World)
        → sudoers_installed h w ≡ true
        → sudoers_installed h (h.append_file h.lima_default_config_path text w).1 ≡ true

  module _ (k : IsNetHost) where
    -- Lima's configuration is what it was.
    Steady : (h.World → Option Error × h.World) → Type 0
    Steady m =
        (w : h.World)
        → h.read_file h.lima_default_config_path (m w).1 ≡ h.read_file h.lima_default_config_path w

    Steady-step :
        (c : String) (args : List String) (input : String) (m : h.World → Option Error × h.World)
        → IsPartCommand args
        → Steady m
        → Steady (step h c (h.run_command args input) m)
    unfolding Steady
    Steady-step c args input m part s w =
        go (h.run_command args input w).0 ∙ k.run_command-config args input w part
      where
        v : h.World
        v = (h.run_command args input w).1

        go :
            (e : Option Error)
            → h.read_file h.lima_default_config_path (then_step h c m e v).1
              ≡ h.read_file h.lima_default_config_path v
        go none = s v
        go (some e) = refl

    Steady-done : Steady (done h)
    unfolding Steady
    Steady-done w = refl

    Steady-install_binaries : Steady (install_binaries h)
    unfolding install_binaries
    Steady-install_binaries = Steady-step _ _ _ _ mkdir (
        Steady-step _ _ _ _ (cp _) (
          Steady-step _ _ _ _ chown
            (Steady-step _ _ _ _ chown_all (Steady-step _ _ _ _ chmod Steady-done))))

    Steady-write_sudoers : (r : Result String) → Steady (write_sudoers h r)
    unfolding Steady
    Steady-write_sudoers (ok text) =
        Steady-step _ _ text _ tee (Steady-step _ _ _ _ chmod_sudoers Steady-done)
    Steady-write_sudoers (err e) = λ w. refl
    Steady-write_sudoers panicked = λ w. refl

    -- What leaves Lima's configuration, where a part is missing, leaves no network.
    IsGuarded-Steady :
        (m : h.World → Option Error × h.World) (w : h.World)
        → Steady m
        → ¬ (verify_config_has_network_section h w ≡ true)
        → IsGuarded (m w).1
    unfolding Steady IsGuarded verify_config_has_network_section
    IsGuarded-Steady m w s n v = absurd (n (ap (section_in h) (sym (s w)) ∙ v))

    false_not_true : ¬ (false ≡ true)
    false_not_true e = cc

    IsGuarded-install_network_config :
        (w : h.World) → IsGuarded w → IsGuarded (install_network_config h w).1
    unfolding IsGuarded install_network_config should_add_networks_config
    IsGuarded-install_network_config w g =
        go (binaries_installed h w) (sudoers_installed h w) refl refl
      where
        appended : h.World → Option Error × h.World
        appended =
            step h ("error opening file at path " <> h.lima_default_config_path)
              (h.append_file h.lima_default_config_path network_config_string) (done h)

        missing : h.World → Option Error × h.World
        missing w = (
          some (
              message
                "skipping installation of network configuration because pre-requisites are missing"),
          w,
        )

        go :
            (b s : Bool)
            → binaries_installed h w ≡ b
            → sudoers_installed h w ≡ s
            → IsGuarded ((if b && s then appended w else missing w).1)
        go true true b s = both (h.append_file h.lima_default_config_path network_config_string w).0
          where
            v : h.World
            v = (h.append_file h.lima_default_config_path network_config_string w).1

            both :
                (e : Option Error)
                → IsGuarded
                    (then_step h
                      ("error opening file at path " <> h.lima_default_config_path)
                      (done h)
                      e
                      v).1
            both none = λ x. (
              k.append_file-binaries network_config_string w b,
              k.append_file-sudoers network_config_string w s,
            )
            both (some e) = λ x. (
              k.append_file-binaries network_config_string w b,
              k.append_file-sudoers network_config_string w s,
            )
        go true false b s = g
        go false s b t = g

    IsGuarded-net_install :
        (d : NetDependency) (w : h.World)
        → net_installed h d w ≡ false
        → IsGuarded w
        → IsGuarded (net_install h d w).1
    unfolding IsGuarded install_sudoers Steady
    IsGuarded-net_install binaries w e g =
        IsGuarded-Steady (install_binaries h) w Steady-install_binaries
          (λ v. let x = (g v).0 in false_not_true (sym e ∙ x))
    IsGuarded-net_install sudoers_file w e g =
        IsGuarded-Steady (install_sudoers h) w (λ w. Steady-write_sudoers (h.lima_sudoers w) w)
          (λ v. let x = (g v).1 in false_not_true (sym e ∙ x))
    IsGuarded-net_install default_lima_config w e g = IsGuarded-install_network_config w g

    -- `InstallOptionalDeps`, for any groups of the parts of the network, whatever fails, keeps it so
    -- that where Lima's default configuration has the network, its parts are installed; the commands
    -- that install the parts leave this configuration as it is.
    pub install_optional_deps-IsGuarded :
        (gs : List (Group (net_installer h))) (p : Progress (net_installer h))
        → IsGuarded p.world
        → IsGuarded (install_optional_deps (net_installer h) gs p).1.world
    install_optional_deps-IsGuarded =
        install_optional_deps-kept (net_installer h) IsGuarded IsGuarded-net_install

-- ===== src/Config/LimaYaml.antt =====
-- pkg/config/lima_config_applier.go and lima_config_applier_darwin.go: the two files for Lima.
mod Scripts
pub mod Yaml
pub mod Override
pub mod Default
use finch.Prelude.{
  String, ◌<>◌, Bool, true, false, ◌&&◌, ◌||◌, not, Option, none, some, List, [], ◌∷◌, ◌++◌, ◌==◌,
  if◌then◌else◌, Result, ok, err, panicked, message, context, ◌>>=◌, ◌>>◌, contains, is_empty,
}
use finch.Prelude.Int.{ℤ}
use finch.Text.{has_prefix, trim_right_char, trim_left_char}
use finch.Config.Types.{Finch}
use finch.Config.System.{System, supports_virtualization_framework}
use finch.Config.Files.{Store, Act, and_then, in_context}
use Scripts.{soci_script, emulation_script, docker_config_setup, wsl_disk_script, wsl_header}
use finch.Config.LimaYaml.Yaml.{Provision, Mount, LimaYaml, empty_yaml, Soci, deref, add_provision}

-- `userModeEmulationInstallationScript`
unfoldable pub install_user_mode_emulation : LimaYaml → LimaYaml
unfolding add_provision
install_user_mode_emulation = add_provision emulation_script

-- The checks of the answer on the virtualization framework.
unfoldable require_support : Result Bool → Result (Unit {0})
require_support r = context "failed to check for virtualization framework support" r >>= λ has.
    if has
    then ok tt
    else err
        (message "system does not have virtualization framework support, change vmType to \"qemu\"")

-- The switch on the type of the machine gives the type of the mounts.
unfoldable mount_type_of : Result Bool → String → Result String
unfolding require_support
mount_type_of support vm_type =
    if vm_type == "vz"
    then require_support support >> ok "virtiofs"
    else if vm_type == "qemu"
    then ok "reverse-sshfs"
    else err (message ("unsupported vm type \"" <> vm_type <> "\" for macOS"))

with_rosetta : LimaYaml → LimaYaml
with_rosetta y = record y {
  rosetta_enabled = some true;
  rosetta_bin_fmt = some true;
  vm_type = some "vz";
  mount_type = some "virtiofs";
}

without_rosetta : String → String → LimaYaml → LimaYaml
unfolding install_user_mode_emulation
without_rosetta vm_type mount_type y = install_user_mode_emulation (record y {
  rosetta_enabled = some false;
  rosetta_bin_fmt = some false;
  vm_type = some vm_type;
  mount_type = some mount_type;
})

unfoldable pub configure_virtualization_framework : System → Finch → LimaYaml → Result LimaYaml
unfolding require_support mount_type_of with_rosetta without_rosetta
configure_virtualization_framework sys cfg y =
    let support = supports_virtualization_framework sys.sw_vers in
    deref cfg.rosetta >>= λ rosetta.
    if rosetta && sys.arch == "arm64"
    then require_support support >> ok (with_rosetta y)
    else deref cfg.vm_type >>= λ vm_type.
        mount_type_of support vm_type >>= λ mount_type. ok (without_rosetta vm_type mount_type y)

-- What `ConfigureDefaultLimaYaml` sets before the virtualization framework.
unfoldable pub default_yaml_base : Finch → LimaYaml
default_yaml_base cfg = record empty_yaml {
  rosetta_enabled = some false;
  rosetta_bin_fmt = some false;
  mount_inotify = if cfg.mount_inotify then some true else none;
}

unfoldable pub configure_cpus : Finch → LimaYaml → LimaYaml
configure_cpus cfg y = record y { cpus = cfg.cpus }

unfoldable pub configure_memory : Finch → LimaYaml → LimaYaml
configure_memory cfg y = record y { memory = cfg.memory }

unfoldable pub mounts_of : List (Option String) → Result (List Mount)
mounts_of [] = ok []
mounts_of (p ∷ ps) = deref p >>= λ path.
    mounts_of ps >>= λ ms. ok ((record { location = path; writable = true }) ∷ ms)

unfoldable configure_mounts : Finch → LimaYaml → Result LimaYaml
configure_mounts cfg y =
    mounts_of cfg.additional_directories >>= λ ms. ok (record y { mounts = ms })

-- The switch of `ConfigureOverrideLimaYaml` on WSL 2.
unfoldable pub configure_disk : String → LimaYaml → LimaYaml
configure_disk vm_type y =
    if not (vm_type == "wsl2") && is_empty y.additional_disks
    then record y { additional_disks = y.additional_disks ++ "finch" ∷ [] }
    else y

unfoldable pub validate_snapshotter : String → Result (Unit {0})
validate_snapshotter snapshotter =
    if contains ("overlayfs" ∷ "soci" ∷ []) snapshotter
    then ok tt
    else err (message ("snapshotter " <> snapshotter <> " is not supported"))

default_snapshotter_env : List String → Result (List (String × String))
unfolding validate_snapshotter
default_snapshotter_env [] = ok []
default_snapshotter_env (s ∷ ss) = validate_snapshotter s >> ok (("CONTAINERD_SNAPSHOTTER", s) ∷ [])

unfoldable pub configure_default_snapshotter : Finch → LimaYaml → Result LimaYaml
unfolding default_snapshotter_env
configure_default_snapshotter cfg y =
    default_snapshotter_env cfg.snapshotters >>= λ env. ok (record y { env = env })

module _ (soci : Soci) (arch : String) where
  unfoldable pub provision_soci_snapshotter : String → LimaYaml → LimaYaml
  unfolding add_provision
  provision_soci_snapshotter vm_type y =
      let release = "soci-snapshotter-" <> soci.version <> "-linux-" <> arch <> ".tar.gz" in
      add_provision
        (soci_script release
          ("https://github.com/awslabs/soci-snapshotter/releases/download/v" <> soci.version <> "/"
            <> release)
          (if arch == "arm64" then soci.arm64_sha else soci.amd64_sha)
          ("https://raw.githubusercontent.com/awslabs/soci-snapshotter/v" <> soci.version
            <> "/soci-snapshotter.service")
          (if vm_type == "wsl2" then "" else docker_config_setup))
        y

  -- The loop stops at a snapshotter that is not supported.
  unfoldable pub provision_snapshotters : String → List String → LimaYaml → Result LimaYaml
  provision_snapshotters vm_type [] y = ok y
  provision_snapshotters vm_type (s ∷ ss) y = elim (s == "soci") [
    | true ↦ provision_snapshotters vm_type ss (provision_soci_snapshotter vm_type y)
    | false ↦ elim (s == "overlayfs") [
      | true ↦ provision_snapshotters vm_type ss y
      | false ↦ err (message ("snapshotter " <> s <> " is not supported"))
    ]
  ]

unfoldable pub find_wsl_disk_format_script : List Provision → Bool
find_wsl_disk_format_script [] = false
find_wsl_disk_format_script (p ∷ ps) =
    has_prefix (trim_left_char (trim_right_char p.script b' ') b' ') wsl_header
    || find_wsl_disk_format_script ps

unfoldable pub ensure_wsl_disk_format_script : LimaYaml → LimaYaml
unfolding add_provision
ensure_wsl_disk_format_script y =
    if find_wsl_disk_format_script y.provision then y else add_provision wsl_disk_script y

-- The snapshotters, and the script for the disk on WSL 2.
unfoldable pub with_snapshotters : Soci → String → String → Finch → LimaYaml → Result LimaYaml
with_snapshotters soci arch vm_type cfg y =
    context "failed to provision snapshotters"
      (provision_snapshotters soci arch vm_type cfg.snapshotters y)
    >>= λ y'.
        context "failed to configure default snapshotter" (configure_default_snapshotter cfg y')
        >>= λ y''. ok (if vm_type == "wsl2" then ensure_wsl_disk_format_script y'' else y'')

-- What `ConfigureOverrideLimaYaml` makes between its two writes.
unfoldable pub override_of : Soci → String → Finch → Result LimaYaml
unfolding configure_mounts configure_cpus configure_memory configure_disk
override_of soci arch cfg =
    configure_mounts cfg (configure_memory cfg (configure_cpus cfg empty_yaml)) >>= λ y.
    deref cfg.vm_type >>= λ vm_type.
    with_snapshotters soci arch vm_type cfg (configure_disk vm_type y)

unfoldable pub default_of : System → Finch → Result LimaYaml
default_of sys cfg =
    context "failed to apply init-only config values"
      (configure_virtualization_framework sys cfg (default_yaml_base cfg))

module _ (st : Store) (marshal : LimaYaml → Result String) where
  -- The file is emptied before its content is made.
  unfoldable pub rewrite : String → Result LimaYaml → Act st (Unit {0})
  unfolding in_context
  rewrite path made w =
      and_then st
        (in_context st "failed to create the an empty lima config file" (st.write_file path "" w))
        λ _ w'.
          and_then st
            (made >>= λ y. context "failed to marshal the lima config file" (marshal y), w')
            λ text w''.
              in_context st "failed to write to the lima config file" (st.write_file path text w'')

  unfoldable pub configure_default_lima_yaml : System → Finch → String → Act st (Unit {0})
  unfolding rewrite default_of
  configure_default_lima_yaml sys cfg path = rewrite path (default_of sys cfg)

  unfoldable pub configure_override_lima_yaml : Soci → System → Finch → String → Act st (Unit {0})
  unfolding rewrite override_of
  configure_override_lima_yaml soci sys cfg path = rewrite path (override_of soci sys.arch cfg)

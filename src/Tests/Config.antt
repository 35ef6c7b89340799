-- ===== src/Tests/Config.antt =====
-- The theorems on the configuration at concrete files and flags.
use finch.Prelude.{◌≡◌, refl, true, none, some, [], ◌∷◌, ◌==◌, ok, err, Error, length, contains}
use finch.Text.{len}
use finch.Prelude.Int.{pos}
use finch.Config.Types.{Finch, VmConfigOpts}
use finch.Config.System.{System}
use finch.Config.Defaults.{apply_defaults}
use finch.Config.Validate.{validate}
use finch.Config.Defaults.Laws.{IsComplete}
use finch.Config.Files.{
  load_finch_config, modify_finch_config, load, updated, newer, changes, modify, write_if,
  write_updated, compare_memory, write_config, in_context, ensure_config_dir, load_read, load_text,
  save_loaded,
}
use finch.Config.Files.Laws.{modify_finch_config-changed, load-load_finch_config}
use finch.Config.LimaYaml.{
  override_of, configure_override_lima_yaml, provision_soci_snapshotter, with_snapshotters,
  provision_snapshotters, configure_default_snapshotter, mounts_of,
}
use finch.Config.LimaYaml.Yaml.{Soci, LimaYaml, empty_yaml}
use finch.Tests.Codec.{full, store, store-IsStore}
use finch.Config.LimaYaml.Override.{
  override_of_lem, configure_override_lima_yaml-unsupported, soci_count,
}

abbrev system : System
system = record {
  total_memory = 8_589_934_592;
  num_cpu = 8;
  arch = "arm64";
  sw_vers = record { out = "14.5\n"; failed = none };
  from_human_size = λ s. ok (pos 4_294_967_296);
  bytes_size = λ n. "4GiB";
}

abbrev three_cpus : VmConfigOpts
three_cpus = record { cpus = some (pos 3); memory = none }

modify_finch_config-changed_example :
    (cfg : Finch) × (load_finch_config store system "finch.yaml" "xx" ≡ ok cfg)
    × (load_finch_config store system "finch.yaml" "xxx" ≡ ok (updated three_cpus cfg))
unfolding modify_finch_config modify write_if write_updated compare_memory load_finch_config
    write_config changes updated newer validate in_context len ◌==◌ ensure_config_dir
modify_finch_config-changed_example =
    modify_finch_config-changed store store-IsStore system "finch.yaml" three_cpus "xx" "xxx" refl

load-load_finch_config_example :
    (load_finch_config store system "finch.yaml" "xx" ≡ ok (full 2)) × IsComplete (full 2)
unfolding load load_read load_text save_loaded write_config validate in_context len ◌==◌
    apply_defaults
load-load_finch_config_example =
    load-load_finch_config store store-IsStore system "finch.yaml" "xx" (full 2) "xx" "xx" refl refl

abbrev soci : Soci
soci = record { version = "0.9.0"; amd64_sha = "aa"; arm64_sha = "bb" }

abbrev with_soci : Finch
with_soci = record (full 2) { snapshotters = "soci" ∷ "overlayfs" ∷ [] }

abbrev soci_yaml : LimaYaml
soci_yaml =
    record (provision_soci_snapshotter soci "arm64" "vz" (record empty_yaml {
      cpus = some (pos 2);
      memory = some "4GiB";
      additional_disks = "finch" ∷ [];
    })) { env = ("CONTAINERD_SNAPSHOTTER", "soci") ∷ [] }

override_of_example :
    (soci_yaml.cpus ≡ some (pos 2))
    × (soci_yaml.memory ≡ some "4GiB")
    × (soci_yaml.additional_disks ≡ "finch" ∷ [])
    × (length soci_yaml.provision ≡ 1)
unfolding override_of with_snapshotters provision_snapshotters configure_default_snapshotter
    mounts_of ◌==◌ soci_count contains
override_of_example = override_of_lem soci "arm64" with_soci [] "vz" soci_yaml refl refl refl refl

abbrev rosetta_yaml : LimaYaml
rosetta_yaml = record empty_yaml {
  rosetta_enabled = some true;
  rosetta_bin_fmt = some true;
  vm_type = some "vz";
  mount_type = some "virtiofs";
}

configure_override_lima_yaml-unsupported_example :
    (e : Error) × (configure_override_lima_yaml store
        (λ y. ok "yaml")
        soci
        system
        (record (full 2) { snapshotters = "soci" ∷ "stargz" ∷ [] })
        "override.yaml"
        "old"
      ≡ (err e, ""))
    × (store.read_file "override.yaml" "" ≡ ok "")
unfolding mounts_of ◌==◌
configure_override_lima_yaml-unsupported_example =
    configure_override_lima_yaml-unsupported store store-IsStore (λ y. ok "yaml") soci system
      (record (full 2) { snapshotters = "soci" ∷ "stargz" ∷ [] }) "override.yaml" [] "vz"
      ("soci" ∷ []) "stargz" [] "old" "" refl refl refl refl refl refl

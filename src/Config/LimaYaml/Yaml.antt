-- ===== src/Config/LimaYaml/Yaml.antt =====
-- Lima's configuration, as far as pkg/config/lima_config_applier.go sets it.
use finch.Prelude.{String, Bool, Option, none, some, List, [], ◌∷◌, ◌++◌, Result, ok, panicked}
use finch.Prelude.Int.{ℤ}

-- `limayaml.Provision`
pub record Provision : Type 0 where
  pub mode : String
  pub script : String

-- `limayaml.Mount`
pub record Mount : Type 0 where
  pub location : String
  pub writable : Bool

-- The fields of `limayaml.LimaYAML` that finch sets.
pub record LimaYaml : Type 0 where
  pub rosetta_enabled : Option Bool
  pub rosetta_bin_fmt : Option Bool
  pub mount_inotify : Option Bool
  pub vm_type : Option String
  pub mount_type : Option String
  pub cpus : Option ℤ
  pub memory : Option String
  pub mounts : List Mount
  -- the names of the disks
  pub additional_disks : List String
  pub provision : List Provision
  pub env : List (String × String)

abbrev pub empty_yaml : LimaYaml
empty_yaml = record {
  rosetta_enabled = none;
  rosetta_bin_fmt = none;
  mount_inotify = none;
  vm_type = none;
  mount_type = none;
  cpus = none;
  memory = none;
  mounts = [];
  additional_disks = [];
  provision = [];
  env = [];
}

-- What the Makefile puts into the build.
pub record Soci : Type 0 where
  pub version : String
  pub amd64_sha : String
  pub arm64_sha : String

-- `*p`
abbrev pub deref : {A : Type 0} → Option A → Result A
deref none = panicked
deref (some a) = ok a

unfoldable pub add_provision : String → LimaYaml → LimaYaml
add_provision script y = record y {
  provision = y.provision ++ (record { mode = "system"; script = script }) ∷ [];
}

-- ===== src/Config/Types.antt =====
-- The structs of pkg/config/config.go and config_darwin.go.
use finch.Prelude.{String, Bool, Option, List}
use finch.Prelude.Int.{ℤ}

-- `Finch`, with the fields of the structs that it embeds. A pointer may be nil.
pub record Finch : Type 0 where
  pub cpus : Option ℤ
  pub memory : Option String
  -- `AdditionalDirectory.Path`
  pub additional_directories : List (Option String)
  pub rosetta : Option Bool
  pub vm_type : Option String
  pub snapshotters : List String
  pub creds_helpers : List String
  pub mount_inotify : Bool
  pub docker_compat : Bool

-- `VMConfigOpts`
pub record VmConfigOpts : Type 0 where
  pub cpus : Option ℤ
  pub memory : Option String

-- ===== src/Config/Defaults/Laws.antt =====
-- The defaults fill what is missing and leave alone what is set.
use finch.Prelude.{ℕ, ◌≤◌, true, none, [], ◌≡◌, ◌≢◌, arith, leb, if◌then◌else◌, ok, ◌⊎◌}
use finch.Prelude.Int.{ℤ, pos, is_positive}
use finch.Config.Types.{Finch}
use finch.Config.System.{System}
use finch.Config.Defaults.{apply_defaults, fallback_memory, round_half}
use finch.Config.Validate.{validate}
use finch.Config.Files.{empty_config}

-- All that has a default is set.
pub record IsComplete (cfg : Finch) : Type 0 where
  pub cpus : cfg.cpus ≢ none
  pub memory : cfg.memory ≢ none
  pub vm_type : cfg.vm_type ≢ none
  pub rosetta : cfg.rosetta ≢ none
  pub creds_helpers : cfg.creds_helpers ≢ []

-- What `cfg` sets, `cfg'` has too, and what has no default is the same.
pub record Extends (cfg cfg' : Finch) : Type 0 where
  pub cpus : (cfg.cpus ≡ none) ⊎ (cfg'.cpus ≡ cfg.cpus)
  pub memory : (cfg.memory ≡ none) ⊎ (cfg'.memory ≡ cfg.memory)
  pub vm_type : (cfg.vm_type ≡ none) ⊎ (cfg'.vm_type ≡ cfg.vm_type)
  pub rosetta : (cfg.rosetta ≡ none) ⊎ (cfg'.rosetta ≡ cfg.rosetta)
  pub creds_helpers : (cfg.creds_helpers ≡ []) ⊎ (cfg'.creds_helpers ≡ cfg.creds_helpers)
  pub additional_directories : cfg'.additional_directories ≡ cfg.additional_directories
  pub snapshotters : cfg'.snapshotters ≡ cfg.snapshotters
  pub mount_inotify : cfg'.mount_inotify ≡ cfg.mount_inotify
  pub docker_compat : cfg'.docker_compat ≡ cfg.docker_compat

module _ (sys : System) (cfg : Finch) where
  -- After the defaults everything that has one is set.
  pub apply_defaults-IsComplete : IsComplete (apply_defaults sys cfg)
  unfolding apply_defaults
  apply_defaults-IsComplete = ground arith

  -- The defaults overwrite nothing that the user has set.
  apply_defaults-Extends : Extends cfg (apply_defaults sys cfg)
  unfolding apply_defaults
  apply_defaults-Extends = grind arith

  -- A complete configuration is left as it is, on every machine.
  apply_defaults_of_complete : IsComplete cfg → apply_defaults sys cfg ≡ cfg
  unfolding apply_defaults
  apply_defaults_of_complete c = ground arith

-- What `Load` relies on in `github.com/docker/go-units`: a size of 2 GiB or more, printed, is read
-- back as a positive size.
pub record IsUnits (sys : System) : Type 0 where
  pub printed :
      (n : ℕ)
      → fallback_memory ≤ n
      → (m : ℤ) × (sys.from_human_size (sys.bytes_size n) ≡ ok m) × (is_positive m ≡ true)

enough_cpus : (n : ℕ) → is_positive (pos (if leb 2 n then n else 2)) ≡ true
enough_cpus n = ground arith

enough_memory : (n : ℕ) → fallback_memory ≤ (if leb fallback_memory n then n else fallback_memory)
enough_memory n = ground arith

-- The defaults alone are valid, though `Load` does not validate them when the file is missing.
pub validate-apply_defaults :
    (sys : System) → IsUnits sys → validate sys (apply_defaults sys empty_config) ≡ ok tt
unfolding validate apply_defaults
validate-apply_defaults sys units =
    let (m, e, positive) = units.printed _ (enough_memory (round_half sys.total_memory)) in
    rw (enough_cpus (round_half sys.num_cpu), e, positive)

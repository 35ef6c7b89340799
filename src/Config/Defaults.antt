-- ===== src/Config/Defaults.antt =====
-- pkg/config/defaults_darwin.go.
pub mod Laws
use finch.Prelude.{
  ℕ, ◌+◌, ◌/◌, String, Bool, true, false, Option, none, some, List, [], ◌∷◌, leb, if◌then◌else◌,
  Result, ok, err, panicked,
}
use finch.Prelude.Int.{ℤ, pos}
use finch.Config.Types.{Finch}
use finch.Config.System.{System, supports_virtualization_framework}

-- 2 GiB
abbrev pub fallback_memory : ℕ
fallback_memory = 2_147_483_648

abbrev pub fallback_cpus : ℕ
fallback_cpus = 2

-- `math.Round(float64(n) * 0.5)`, for the numbers below 2 ^ 53 that a float64 holds exactly.
abbrev pub round_half : ℕ → ℕ
round_half n = (n + 1) / 2

or_set : {A : Type 0} → Option A → A → Option A
or_set none a = some a
or_set (some b) a = some b

unfoldable pub cpu_default : System → Finch → Finch
unfolding or_set
cpu_default sys cfg =
    let default_cpus = round_half sys.num_cpu in
    record cfg {
      cpus =
          or_set cfg.cpus
            (pos (if leb fallback_cpus default_cpus then default_cpus else fallback_cpus));
    }

unfoldable pub memory_default : System → Finch → Finch
unfolding or_set
memory_default sys cfg =
    let default_memory = round_half sys.total_memory in
    record cfg {
      memory = or_set cfg.memory (
          sys.bytes_size
            (if leb fallback_memory default_memory then default_memory else fallback_memory));
    }

unfoldable pub vm_default : Bool → Finch → Finch
unfolding or_set
vm_default supports_vz cfg = record cfg {
  vm_type = or_set cfg.vm_type (if supports_vz then "vz" else "qemu");
}

unfoldable pub rosetta_default : Finch → Finch
unfolding or_set
rosetta_default cfg = record cfg { rosetta = or_set cfg.rosetta false }

or_keychain : List String → List String
or_keychain [] = "osxkeychain" ∷ []
or_keychain (c ∷ cs) = c ∷ cs

unfoldable pub cred_helper_default : Finch → Finch
unfolding or_keychain
cred_helper_default cfg = record cfg { creds_helpers = or_keychain cfg.creds_helpers }

-- `err == nil && vz`
supports_vz : Result Bool → Bool
supports_vz (ok vz) = vz
supports_vz (err e) = false
supports_vz panicked = false

unfoldable pub apply_defaults : System → Finch → Finch
unfolding cpu_default memory_default vm_default rosetta_default cred_helper_default supports_vz
apply_defaults sys cfg = cred_helper_default (
    rosetta_default (
      vm_default (supports_vz (supports_virtualization_framework sys.sw_vers))
        (memory_default sys (cpu_default sys cfg))))

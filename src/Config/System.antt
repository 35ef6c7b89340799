-- ===== src/Config/System.antt =====
-- What package config gets from the machine and from other packages, and
-- `SupportsVirtualizationFramework` of config_darwin.go.
use finch.Prelude.{
  ℕ, String, Bool, none, some, List, [], ◌∷◌, Result, ok, err, message, context, ◌>>=◌,
}
use finch.Prelude.Int.{ℤ, at_least}
use finch.Text.{split}
use finch.Text.Decimal.{parse_int}
use finch.Lima.{Reply}

pub record System : Type 0 where
  -- `mem.TotalMemory()`
  pub total_memory : ℕ
  -- `deps.NumCPU()`
  pub num_cpu : ℕ
  -- `systemDeps.Arch()`
  pub arch : String
  -- the output of `sw_vers -productVersion`
  pub sw_vers : Reply
  -- `units.FromHumanSize`
  pub from_human_size : String → Result ℤ
  -- `units.BytesSize`, at whole numbers
  pub bytes_size : ℕ → String

-- The first part of a version; the list of parts is never empty.
major : List String → Result ℤ
unfolding parse_int
major [] = err (message "unexpected result from string split: []")
major (v ∷ vs) = context "failed to parse split sw_vers output into int" (parse_int v)

unfoldable pub supports_virtualization_framework : Reply → Result Bool
unfolding major
supports_virtualization_framework r = elim r.failed [
  | none ↦ major (split r.out b'.') >>= λ v. ok (at_least 13 v)
  | some e ↦ context "failed to run sw_vers command" (err e)
]

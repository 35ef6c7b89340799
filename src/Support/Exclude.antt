-- ===== src/Support/Exclude.antt =====
-- `fileShouldBeExcluded` of pkg/support/support.go.
use finch.Prelude.{
  String, Bool, true, false, ◌||◌, List, [], ◌∷◌, Result, ok, err, panicked, ◌>>=◌, if◌then◌else◌,
  ◌==◌,
}
use finch.Text.{has_prefix, cut_after}
use finch.Text.FilePath.{clean, join_path, base}
use finch.Support.{BundleHost}

unfoldable pub is_file_from_vm : String → Bool
is_file_from_vm filename = has_prefix filename "vm:"

unfoldable pub is_service : String → Bool
is_service filename = has_prefix filename "service:"

module _ (h : BundleHost) where
  -- `filepath.Abs(path)`
  unfoldable pub absolute : String → Result String
  absolute path =
      if has_prefix path "/"
      then ok (clean path)
      else h.working_dir >>= λ d. ok (join_path (d ∷ path ∷ []))

  -- The test of one `excludeFile`.
  unfoldable pub excluded_by : String → String → String → Bool
  excluded_by real_filename file_abs exclude_file = elim (absolute exclude_file) [
    | ok exclude_abs ↦ file_abs == exclude_abs || base real_filename == exclude_file
    | err e ↦ false
    | panicked ↦ false
  ]

  unfoldable pub excluded_by_any : String → String → List String → Bool
  excluded_by_any real_filename file_abs [] = false
  excluded_by_any real_filename file_abs (x ∷ xs) =
      excluded_by real_filename file_abs x || excluded_by_any real_filename file_abs xs

  -- `realFilename`
  unfoldable pub real_filename_of : String → String
  unfolding is_file_from_vm cut_after
  real_filename_of filename = if is_file_from_vm filename then cut_after filename b':' else filename

  unfoldable pub file_should_be_excluded : String → List String → Bool
  file_should_be_excluded filename exclude = elim (absolute (real_filename_of filename)) [
    | ok file_abs ↦ excluded_by_any (real_filename_of filename) file_abs exclude
    | err e ↦ true
    | panicked ↦ true
  ]

-- ===== src/Windows/Paths.antt =====
-- The paths of Windows, as WSL has them.
use finch.Prelude.{String, List, [], ◌∷◌, if◌then◌else◌, Result, ok, err, panicked, ◌>>=◌}
use finch.Text.{slice_from, slice_to, has_prefix, replace_byte}
use finch.Text.Case.{to_lower}
use finch.Lima.{lima_instance_name}

-- What `systemDeps` and `path/filepath` do on Windows.
pub record WinDeps : Type 0 where
  pub get_wd : Result String
  -- `filepath.Clean`
  pub file_path_clean : String → String
  pub file_path_abs : String → Result String
  pub file_path_join : List String → String

-- `filepath.ToSlash`
unfoldable pub to_slash : String → String
unfolding replace_byte
to_slash s = replace_byte s b'\\' "/"

module _ (w : WinDeps) where
  -- The path behind `FilePathAbs`.
  unfoldable pub wsl_path : String → String
  unfolding to_slash to_lower slice_from slice_to has_prefix
  wsl_path path =
      if has_prefix (slice_from 1 path) ":"
      then to_slash
          (w.file_path_join ("\\" ∷ "mnt" ∷ to_lower (slice_to 1 path) ∷ slice_from 3 path ∷ []))
      else path

  -- `convertToWSLPath`
  unfoldable pub convert_to_wsl_path : String → Result String
  unfolding wsl_path
  convert_to_wsl_path win_path = do
    path ← w.file_path_abs (w.file_path_clean win_path)
    ok (wsl_path path)

  -- Where there is no such path, the command runs in the user's home.
  abbrev pub at_directory : Result String → Result (List String)
  at_directory (ok path) =
      ok ("shell" ∷ "--workdir" ∷ path ∷ lima_instance_name ∷ "sudo" ∷ "-E" ∷ [])
  at_directory (err e) = ok ("shell" ∷ lima_instance_name ∷ "sudo" ∷ "-E" ∷ [])
  at_directory panicked = panicked

  -- `GetCmdArgs`
  unfoldable pub get_cmd_args : Result (List String)
  unfolding convert_to_wsl_path
  get_cmd_args = at_directory (w.get_wd >>= convert_to_wsl_path)

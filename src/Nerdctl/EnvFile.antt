-- ===== src/Nerdctl/EnvFile.antt =====
-- `handleEnvFile`: the variables that a file names, one to a line.
use finch.Prelude.{
  ℕ, String, ◌<>◌, Bool, false, ◌||◌, Option, none, some, List, [], ◌∷◌, ◌++◌, ltb, ◌==◌,
  if◌then◌else◌, Result, ok, err, message, ◌>>=◌,
}
use finch.Text.{len, has_prefix, slice_from, has_char, split, trim_space}
use finch.Text.FilePath.{clean}
use finch.Nerdctl.Deps.{FileText}

-- `bufio.MaxScanTokenSize`
abbrev max_scan_token_size : ℕ
max_scan_token_size = 65536

drop_last_empty : List String → List String
unfolding ◌==◌
drop_last_empty [] = []
drop_last_empty (w ∷ []) = if w == "" then [] else w ∷ []
drop_last_empty (w ∷ (v ∷ ws)) = w ∷ drop_last_empty (v ∷ ws)

-- The lines of `bufio.ScanLines`: a last line that is empty is none. The carriage return at the end
-- of a line is white space, and goes with `TrimSpace`.
unfoldable pub scan_lines : String → List String
unfolding drop_last_empty split
scan_lines text = drop_last_empty (split text b'\n')

-- A line that fills the scanner's buffer stops the scan.
unfoldable pub too_long : List String → Bool
unfolding len
too_long [] = false
too_long (l ∷ ls) = ltb 65535 (len l) || too_long ls

module _ (lookup_env : String → Option String) where
  -- The body of the loop over the lines: nothing, or the one variable that the line sets.
  unfoldable pub env_of_line : String → List String
  env_of_line line =
      if line == ""
      then []
      else if has_prefix line "#"
      then []
      else if has_char line b'='
      then line ∷ []
      else elim (lookup_env line) [ none ↦ [] | some val ↦ (line <> ("=" <> val)) ∷ [] ]

  unfoldable pub envs_of_lines : List String → List String
  unfolding env_of_line
  envs_of_lines [] = []
  envs_of_lines (l ∷ ls) = env_of_line (trim_space l) ++ envs_of_lines ls

  unfoldable pub read_envs : FileText → Result (List String)
  unfolding envs_of_lines
  read_envs file =
      let lines = scan_lines file.text in
      if too_long lines
      then err (message "bufio.Scanner: token too long")
      else elim file.read_error [ none ↦ ok (envs_of_lines lines) | some e ↦ err e ]

  unfoldable pub handle_env_file :
      (String → Result FileText) → String → String → Result (Bool × List String)
  unfolding read_envs
  handle_env_file open_file arg next = do
    let filename = if arg == "--env-file" then next else slice_from 11 arg
    file ← open_file (clean filename)
    envs ← read_envs file
    ok (arg == "--env-file", envs)

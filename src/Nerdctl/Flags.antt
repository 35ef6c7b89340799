-- ===== src/Nerdctl/Flags.antt =====
-- `cmdFlagSetMap`, and the cases of the switch over one argument in `run`.
use finch.Prelude.{String, Bool, ◌&&◌, ◌||◌, not, List, [], ◌∷◌, ltb, ◌==◌, if◌then◌else◌, contains}
use finch.Text.{len, has_prefix, slice_to, cut_before}

pub record FlagSets : Type 0 where
  pub short_bool_flags : List String
  pub long_bool_flags : List String
  pub short_arg_flags : List String

abbrev exec_long_flags : List String
exec_long_flags =
    "--detach" ∷ "--init" ∷ "--interactive" ∷ "--oom-kill-disable" ∷ "--privileged" ∷ "--read-only"
    ∷ "--rm" ∷ "--rootfs" ∷ "--tty" ∷ []

abbrev run_long_flags : List String
run_long_flags =
    "--detach" ∷ "--init" ∷ "--interactive" ∷ "--oom-kill-disable" ∷ "--privileged" ∷ "--read-only"
    ∷ "--rm" ∷ "--rootfs" ∷ "--tty" ∷ "--sig-proxy" ∷ []

abbrev flag_sets : List String → FlagSets
flag_sets long = record {
  short_bool_flags = "-d" ∷ "-i" ∷ "-t" ∷ [];
  long_bool_flags = long;
  short_arg_flags = "-e" ∷ "-h" ∷ "-m" ∷ "-u" ∷ "-w" ∷ "-p" ∷ "-l" ∷ "-v" ∷ [];
}

-- `cmdFlagSetMap[cmdName]`; a key that is not there has empty sets.
unfoldable pub cmd_flag_set_map : String → FlagSets
cmd_flag_set_map name =
    if name == "container run"
    then flag_sets run_long_flags
    else if name == "exec" || name == "compose"
    then flag_sets exec_long_flags
    else record { short_bool_flags = []; long_bool_flags = []; short_arg_flags = [] }

-- `argIsEnv`
unfoldable pub arg_is_env : String → Bool
arg_is_env arg =
    has_prefix arg "-e" || (has_prefix arg "--env" && not (has_prefix arg "--env-file"))

-- The cases of the switch, in the order of the source.
pub data ArgKind : Type 0 where
  debug help : ArgKind
  -- `--add-host` alone, and with its value in the same argument
  add_host add_host_value : ArgKind
  env_file env : ArgKind
  -- a flag with no value, alone or with `=value`
  bool_flag bool_flag_value : ArgKind
  -- several short flags in one argument
  short_group : ArgKind
  short_arg long_arg : ArgKind
  positional : ArgKind

starts_in : List String → String → Bool
starts_in flags arg = ltb 1 (len arg) && contains flags (slice_to 2 arg)

unfoldable pub classify : FlagSets → String → ArgKind
unfolding arg_is_env starts_in
classify sets arg =
    if arg == "--debug"
    then debug
    else if arg == "--help"
    then help
    else if arg == "--add-host"
    then add_host
    else if has_prefix arg "--add-host"
    then add_host_value
    else if has_prefix arg "--env-file"
    then env_file
    else if arg_is_env arg
    then env
    else if contains sets.short_bool_flags arg || contains sets.long_bool_flags arg
    then bool_flag
    else if contains sets.long_bool_flags (cut_before arg b'=')
    then bool_flag_value
    else if starts_in sets.short_bool_flags arg
    then short_group
    else if contains sets.short_arg_flags arg || starts_in sets.short_arg_flags arg
    then short_arg
    else if has_prefix arg "--"
    then long_arg
    else positional

-- ===== src/Tests/Scan.antt =====
-- The theorems on the loop of nerdctl's arguments at concrete command lines.
use finch.Prelude.{◌≡◌, refl, true, none, some, [], ◌∷◌, ◌==◌, ok, contains, lookup, false}
use finch.Lima.{get_vm_status, to_vm_status}
use finch.Text.{len, slice_to, has_prefix, cut_before, cut_after, trim_space, fields}
use finch.Nerdctl.Flags.{FlagSets, classify, cmd_flag_set_map, arg_is_env}
use finch.Nerdctl.Values.{handle_flag_arg}
use finch.Nerdctl.Values.Recombine.{Recombines, handle_flag_arg-Recombines}
use finch.Nerdctl.Scan.{OptPos, before, loop, start, first_opt_pos}
use finch.Nerdctl.Scan.PassThrough.{loop-positional}
use finch.Nerdctl.Envs.{env_vars, passed_env_args}
use finch.Nerdctl.Envs.Precedence.{last_value, lookup-env_vars}
use finch.Nerdctl.Run.{
  run, find_handlers, run_command, lima_args, additional_env, wants_credentials,
  should_replace_for_help,
}
use finch.Nerdctl.Run.Laws.{run-positional}
use finch.Nerdctl.Handlers.{arg_handler_map}
use finch.Tests.Nerdctl.{list_map, list_map-IsOrdered, deps}

abbrev run_sets : FlagSets
run_sets = cmd_flag_set_map "container run"

loop-positional_example :
    loop deps [] run_sets (OptPos.at 0) 0 none ("alpine" ∷ "ls" ∷ "-l" ∷ []) start
    ≡ ok (record start {
      last_opt = true;
      cmd_args = "alpine" ∷ "ls" ∷ "-l" ∷ [];
      seen = "alpine" ∷ "ls" ∷ "-l" ∷ [];
    })
unfolding classify arg_is_env cmd_flag_set_map contains ◌==◌ has_prefix cut_before slice_to len
    lookup before
loop-positional_example =
    loop-positional deps [] run_sets (OptPos.at 0) 0 "alpine" ("ls" ∷ "-l" ∷ []) start
      (refl, (refl, (refl, tt))) refl refl refl refl

lookup-env_vars_example :
    lookup "A" (list_map.pairs (env_vars list_map ("A=1" ∷ "B=2" ∷ []) ("A=3" ∷ []))) ≡ some "3"
unfolding last_value cut_before cut_after ◌==◌
lookup-env_vars_example =
    lookup-env_vars list_map list_map-IsOrdered "A" ("A=1" ∷ "B=2" ∷ []) ("A=3" ∷ [])

handle_flag_arg-Recombines_example : Recombines "--name" "x" (handle_flag_arg "--name" "x")
unfolding has_prefix
handle_flag_arg-Recombines_example = handle_flag_arg-Recombines "--name" "x" refl

run-positional_example :
    run deps "run" ("alpine" ∷ "ls" ∷ "--debug" ∷ [])
    ≡ ok (
      run_command (
          "shell" ∷ "finch" ∷ "sudo" ∷ "-E" ∷ "nerdctl" ∷ "container" ∷ "run" ∷ "alpine" ∷ "ls"
          ∷ "--debug" ∷ []),
      false,
    )
unfolding get_vm_status to_vm_status ◌==◌ trim_space find_handlers lookup arg_handler_map lima_args
    additional_env wants_credentials contains passed_env_args fields should_replace_for_help
    cut_before classify arg_is_env cmd_flag_set_map has_prefix slice_to len before first_opt_pos
run-positional_example =
    run-positional deps list_map-IsOrdered "run" "alpine" ("ls" ∷ "--debug" ∷ [])
      (find_handlers deps "run" ("alpine" ∷ "ls" ∷ "--debug" ∷ [])) refl refl refl refl refl
      (refl, (refl, (refl, tt))) refl refl

-- ===== src/Windows/Run/Copies.antt =====
-- `finch cp` in the Windows build, from the command line to what limactl gets.
use finch.Prelude.{
  String, ◌==◌, List, [], ◌∷◌, ◌++◌, ◌≡◌, refl, ap, none, some, ok, contains, lookup, if◌then◌else◌,
}
use finch.Text.{fields}
use finch.Lima.{VmStatus, get_vm_status, status_args, lima_instance_name}
use finch.Nerdctl.Deps.{Deps}
use finch.Nerdctl.Envs.{passed_envs}
use finch.Nerdctl.Scan.PassThrough.{Unhandled-nil}
use finch.Nerdctl.Run.{
  replacing_stdout, run_command, assert_vm_is_running, find_handlers_in, run_command_handler,
  parse_args, should_replace_for_help, wants_credentials,
}
use finch.Nerdctl.Run.Laws.{without_debug, parse_plain_lem, choose_exec-plain}
use finch.Windows.Paths.{WinDeps, get_cmd_args}
use finch.Windows.Commands.{command_handler_map, arg_handler_map, cp_handler}
use finch.Windows.Copy.{Copied, cp_arguments-Copied}
use finch.Windows.Run.{AwsDeps, tables, passed_env_args, additional_env, lima_args, run}

module _ (d : Deps) (w : WinDeps) (a : AwsDeps) where
  cp_handlers :
      (args : List String)
      → find_handlers_in (tables d w a) "cp" args
        ≡ record { name = "container cp"; command = some (cp_handler w); args = [] }
  unfolding find_handlers_in tables lookup command_handler_map arg_handler_map ◌==◌
  cp_handlers args = refl

  lima_args-cp :
      (args passed cmd : List String)
      → passed_env_args d w a passed_envs ≡ ok passed
      → get_cmd_args w ≡ ok cmd
      → lima_args d w a "container cp" args
        ≡ ok (cmd ++ (passed ++ "nerdctl" ∷ ("container" ∷ ("cp" ∷ []))))
  unfolding lima_args additional_env wants_credentials ◌==◌ contains fields
  lima_args-cp args passed cmd p g = rw (p, g) refl

  -- On a machine that is running, `finch cp` hands nerdctl its arguments with each path of the host
  -- converted, less each `--debug`, behind the variables that are passed on; no credentials are
  -- fetched.
  pub run-cp :
      (args out passed cmd : List String)
      → get_vm_status lima_instance_name (d.limactl (status_args lima_instance_name))
        ≡ ok VmStatus.running
      → Copied w args out
      → passed_env_args d w a passed_envs ≡ ok passed
      → get_cmd_args w ≡ ok cmd
      → (let run_args =
            (cmd ++ (passed ++ "nerdctl" ∷ "container" ∷ "cp" ∷ [])) ++ without_debug out in
          run d w a "cp" args
          ≡ ok (
            if should_replace_for_help "container cp" out
                then replacing_stdout run_args
                else run_command run_args,
            contains out "--debug",
          ))
  unfolding run assert_vm_is_running run_command_handler parse_args cp_handler ◌==◌
  run-cp args out passed cmd up c p g =
      rw
        (
          up,
          cp_handlers args,
          cp_arguments-Copied w args out c,
          parse_plain_lem d [] none out _ tt (Unhandled-nil out),
          lima_args-cp out passed cmd p g,
        )
        (ap (λ e. ok (e, contains out "--debug"))
          (choose_exec-plain d "container cp" out
            (record {
              nerdctl_args = without_debug out;
              cmd_args = [];
              args = out;
              debug = contains out "--debug";
            })
            ((cmd ++ (passed ++ "nerdctl" ∷ ("container" ∷ ("cp" ∷ [])))) ++ without_debug out)
            refl))

-- ===== src/Linux.antt =====
-- cmd/finch/nerdctl_native.go: the commands of nerdctl in the Linux build, which has no virtual
-- machine.
pub mod Direct
use finch.Prelude.{
  String, ◌==◌, Bool, not, ◌&&◌, Option, none, some, List, [], ◌∷◌, ◌++◌, if◌then◌else◌, contains,
  lookup, head?, get_or, is_empty, Result, ok, ◌>>=◌,
}
use finch.Text.{split}
use finch.Nerdctl.Deps.{Deps}
use finch.Nerdctl.Handlers.{ArgHandler, Command, alias_map, command_handler_map, arg_handler_map}
use finch.Nerdctl.Scan.{apply_handler}
use finch.Nerdctl.Run.{
  Exec, replacing_stdout, inspect_container, compose_version, run_command, Tables, Handlers,
  handlers_of, sub_handlers, run_command_handler, should_replace_for_help,
  docker_compat_compose_version,
}

-- The first `--debug` is eaten.
unfoldable pub without_first_debug : List String → List String
unfolding ◌==◌
without_first_debug [] = []
without_first_debug (a ∷ args) =
    let rest = without_first_debug args in if a == "--debug" then args else a ∷ rest

-- An alias gives the handlers only; the command keeps its name.
-- A command that has handlers for arguments is not looked up together with its first argument.
unfoldable pub find_handlers_linux : Tables → String → List String → Handlers
unfolding handlers_of sub_handlers
find_handlers_linux t name args = elim (lookup name t.aliases) [
  | some alias ↦ handlers_of t name alias
  | none ↦
      if is_empty (handlers_of t name name).args
      then sub_handlers t name args
      else handlers_of t name name
]

module _ (d : Deps) where
  abbrev pub linux_tables : Tables
  linux_tables = record {
    aliases = alias_map;
    commands = command_handler_map;
    args = arg_handler_map d.iterate;
  }

  -- `pending` is what the round before has written to `args[i]`.
  unfoldable pub handle_arguments :
      List (String × ArgHandler) → Option String → List String → Result (List String)
  unfolding apply_handler
  handle_arguments handlers pending [] = ok []
  handle_arguments handlers pending (x ∷ rest) = do
    (arg, next) ← apply_handler handlers d.docker_compat (get_or pending x) (head? rest)
    out ← handle_arguments handlers next rest
    ok (arg ∷ out)

  -- The choice of the command, from the name in words and all arguments.
  unfoldable pub choose_exec_linux : Command → List String → List String → Exec
  unfolding should_replace_for_help docker_compat_compose_version contains ◌==◌
  choose_exec_linux c words args =
      let cmd_args = words ++ args in
      if should_replace_for_help (get_or (head? words) "") args
      then replacing_stdout cmd_args
      else if c.inspect_type == "container"
          && (d.docker_compat && not (contains cmd_args "--format"))
      then inspect_container (cmd_args ++ "--format" ∷ "{{json .}}" ∷ [])
      else elim (docker_compat_compose_version d c.name cmd_args) [
        | some ver ↦ compose_version ver
        | none ↦ run_command cmd_args
      ]

  -- `run`: the command, and whether the log level was set to debug.
  unfoldable pub run_linux : String → List String → Result (Exec × Bool)
  unfolding without_first_debug find_handlers_linux run_command_handler handle_arguments
      choose_exec_linux split
  run_linux cmd_name args = do
    let args' = without_first_debug args
    let h = find_handlers_linux linux_tables cmd_name args'
    c ← run_command_handler d h.command (record { name = h.name; args = args'; inspect_type = "" })
    out ← handle_arguments h.args none c.args
    ok (choose_exec_linux c (split c.name b' ') out, contains args "--debug")

-- ===== src/Nerdctl/Run.antt =====
-- `nerdctlCommand.run`, from the check of the machine to the command that is executed.
pub mod Laws
use finch.Prelude.{
  ℕ, String, ◌<>◌, Bool, true, false, ◌&&◌, ◌||◌, not, Option, none, some, List, [], ◌∷◌, ◌++◌,
  ◌==◌, if◌then◌else◌, contains, lookup, head?, is_empty, get_or, Result, ok, err, message, ◌>>=◌,
  ◌>>◌,
}
use finch.Text.{fields}
use finch.Lima.{VmStatus, get_vm_status, status_args, lima_instance_name}
use finch.Nerdctl.Deps.{Deps, OrderedMap}
use finch.Nerdctl.Flags.{cmd_flag_set_map}
use finch.Nerdctl.Handlers.{
  ArgHandler, CommandHandler, Command, alias_map, command_handler_map, arg_handler_map,
}
use finch.Nerdctl.Scan.{Scan, scan_args, apply_handler, first_opt_pos}
use finch.Nerdctl.Envs.{env_vars, env_args, passed_envs, passed_env_args}

-- What `run` executes at its end.
pub data Exec : Type 0 where
  -- `RunWithReplacingStdout`, which writes finch for nerdctl
  replacing_stdout : List String → Exec
  -- `inspectContainerOutputHandler`
  inspect_container : List String → Exec
  -- the version of compose is printed, and nothing is executed
  compose_version : String → Exec
  run_command : List String → Exec

-- The two halves of the switch on the command's name leave these.
pub record Parsed : Type 0 where
  pub nerdctl_args : List String
  pub cmd_args : List String
  -- `args`, as the handlers have left them
  pub args : List String
  pub debug : Bool

implicit_help_cmds : List String
implicit_help_cmds =
    "system" ∷ "builder" ∷ "compose" ∷ "container" ∷ "image" ∷ "network" ∷ "volume" ∷ []

-- For these `-h` is the host's name.
host_name_cmds : List String
host_name_cmds = "container run" ∷ "run" ∷ "create" ∷ []

-- `shouldReplaceForHelp`
unfoldable pub should_replace_for_help : String → List String → Bool
unfolding implicit_help_cmds host_name_cmds
should_replace_for_help name args =
    (is_empty args && contains implicit_help_cmds name)
    || (contains args "--help" || (contains args "-h" && not (contains host_name_cmds name)))

-- `GetCmdArgs` of nerdctl_darwin.go
abbrev pub get_cmd_args : List String
get_cmd_args = "shell" ∷ lima_instance_name ∷ "sudo" ∷ "-E" ∷ []

-- `ensureRemoteCredentials` returns at once on macOS.
abbrev ensure_remote_credentials : List String → List String
ensure_remote_credentials out_env = out_env

-- The commands that may need remote resources.
unfoldable pub wants_credentials : String → List String → Bool
wants_credentials name args =
    (name == "image" && (contains args "build" || (contains args "pull" || contains args "push")))
    || ((name == "container" && contains args "run")
        || contains ("build" ∷ "pull" ∷ "push" ∷ "container run" ∷ []) name)

-- `additionalEnv`
unfoldable pub additional_env : String → List String → List String
additional_env name args = if wants_credentials name args then ensure_remote_credentials [] else []

check_status : VmStatus → Result (Unit {0})
check_status VmStatus.nonexistent =
    err (message "instance \"finch\" does not exist, run `finch vm init` to create a new instance")
check_status VmStatus.stopped =
    err (message "instance \"finch\" is stopped, run `finch vm start` to start the instance")
check_status _ = ok tt

-- The command handler and the argument handlers that `run` looks up.
pub record Handlers : Type 0 where
  pub name : String
  pub command : Option CommandHandler
  pub args : List (String × ArgHandler)

-- What `run` finds handlers in: the tables of nerdctl.go with those of one platform.
pub record Tables : Type 0 where
  pub aliases : List (String × String)
  pub commands : List (String × CommandHandler)
  pub args : String → List (String × ArgHandler)

unfoldable pub handlers_of : Tables → String → String → Handlers
handlers_of t name key = record { name = name; command = lookup key t.commands; args = t.args key }

has_none : Handlers → Bool
has_none h = (elim h.command [ none ↦ true | some c ↦ false ]) && is_empty h.args

unfoldable pub sub_handlers : Tables → String → List String → Handlers
unfolding handlers_of
sub_handlers t name [] = handlers_of t name name
sub_handlers t name (a ∷ args) = handlers_of t name (name <> (" " <> a))

-- The alias, and the handlers of the command or of the command with its first argument.
unfoldable pub find_handlers_in : Tables → String → List String → Handlers
unfolding handlers_of has_none sub_handlers
find_handlers_in t name args = elim (lookup name t.aliases) [
  | some alias ↦ handlers_of t alias alias
  | none ↦
      if has_none (handlers_of t name name)
      then sub_handlers t name args
      else handlers_of t name name
]

module _ (d : Deps) where
  -- `assertVMIsRunning`
  unfoldable pub assert_vm_is_running : Result (Unit {0})
  unfolding check_status
  assert_vm_is_running = do
    status ← get_vm_status lima_instance_name (d.limactl (status_args lima_instance_name))
    check_status status

  -- nerdctl_darwin.go adds nothing to the tables of nerdctl.go.
  unfoldable pub find_handlers : String → List String → Handlers
  unfolding find_handlers_in
  find_handlers = find_handlers_in (record {
    aliases = alias_map;
    commands = command_handler_map;
    args = arg_handler_map d.iterate;
  })

  unfoldable pub run_command_handler : Option CommandHandler → Command → Result Command
  run_command_handler none c = ok c
  run_command_handler (some h) c = h d.docker_compat c

  -- `container run`, `exec` and `compose`
  unfoldable pub parse_options : List (String × ArgHandler) → String → List String → Result Parsed
  parse_options handlers name args = do
    let args' = if is_empty args then "--help" ∷ [] else args
    s ← scan_args d handlers (cmd_flag_set_map name) (first_opt_pos args) args'
    let envs = env_args (d.ordered_map.pairs (env_vars d.ordered_map s.file_envs s.envs))
    ok (record {
      nerdctl_args = (s.nerdctl_args ++ envs) ++ s.cmd_args;
      cmd_args = s.cmd_args;
      args = s.seen;
      debug = s.debug;
    })

  unfoldable pub add_plain : String → Parsed → Parsed
  add_plain arg p =
      if arg == "--debug"
      then record p { debug = true; args = p.args ++ arg ∷ [] }
      else record p { nerdctl_args = p.nerdctl_args ++ arg ∷ []; args = p.args ++ arg ∷ [] }

  -- All other commands
  unfoldable pub parse_plain :
      List (String × ArgHandler) → Option String → List String → Parsed → Result Parsed
  parse_plain handlers pending [] p = ok p
  parse_plain handlers pending (x ∷ rest) p = do
    (arg, next) ← apply_handler handlers d.docker_compat (get_or pending x) (head? rest)
    parse_plain handlers next rest (add_plain arg p)

  abbrev pub has_options : String → Bool
  has_options name = name == "container run" || (name == "exec" || name == "compose")

  unfoldable pub parse_args : List (String × ArgHandler) → String → List String → Result Parsed
  unfolding parse_options parse_plain
  parse_args handlers name args =
      if has_options name
      then parse_options handlers name args
      else parse_plain handlers none args
          (record { nerdctl_args = []; cmd_args = []; args = []; debug = false })

  -- `handleDockerCompatComposeVersion`: the version to print, if it applies.
  unfoldable pub docker_compat_compose_version : String → List String → Option String
  docker_compat_compose_version name cmd_args =
      if name == "compose" && (d.docker_compat && contains cmd_args "version")
      then (let ver = get_or (d.lookup_env "DOCKER_COMPOSE_VERSION") "" in
          if ver == "" then none else some ver)
      else none

  -- The choice of the command at the end of `run`.
  unfoldable pub choose_exec : Command → Parsed → List String → Exec
  choose_exec c p run_args =
      if should_replace_for_help c.name p.args
      then replacing_stdout run_args
      else if c.inspect_type == "container"
          && (d.docker_compat && not (contains run_args "--format"))
      then inspect_container (run_args ++ "--format" ∷ "{{json .}}" ∷ [])
      else elim (docker_compat_compose_version c.name p.cmd_args) [
        | some ver ↦ compose_version ver
        | none ↦ run_command run_args
      ]

  unfoldable pub lima_args : String → List String → List String
  lima_args name args =
      get_cmd_args
      ++ ((additional_env name args ++ passed_env_args d.lookup_env passed_envs)
          ++ ("nerdctl" ∷ fields name))

  -- `run`: the command, and whether the log level was set to debug on the way.
  unfoldable pub run : String → List String → Result (Exec × Bool)
  run cmd_name args = do
    assert_vm_is_running
    let h = find_handlers cmd_name args
    c ← run_command_handler h.command (record { name = h.name; args = args; inspect_type = "" })
    p ← parse_args h.args c.name c.args
    ok (choose_exec c p (lima_args c.name p.args ++ p.nerdctl_args), p.debug)

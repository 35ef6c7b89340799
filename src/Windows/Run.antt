-- ===== src/Windows/Run.antt =====
-- `nerdctlCommand.run` in the Windows build: the parts that differ, and the whole.
pub mod Copies
use finch.Prelude.{
  String, ◌<>◌, ◌==◌, Bool, true, false, Option, none, some, List, [], ◌∷◌, ◌++◌, if◌then◌else◌,
  contains, Result, ok, err, panicked, ◌>>=◌, ◌>>◌,
}
use finch.Text.{fields}
use finch.Nerdctl.Deps.{Deps}
use finch.Nerdctl.Envs.{passed_envs}
use finch.Nerdctl.Handlers.{Command}
use finch.Nerdctl.Run.{
  Exec, Parsed, Tables, Handlers, find_handlers_in, assert_vm_is_running, run_command_handler,
  parse_args, wants_credentials, choose_exec,
}
use finch.Windows.Paths.{WinDeps, convert_to_wsl_path, get_cmd_args}
use finch.Windows.Commands.{alias_map, command_handler_map, arg_handler_map}

pub record AwsCredentials : Type 0 where
  pub access_key_id : String
  pub secret_access_key : String
  pub session_token : String

-- What `ensureRemoteCredentials` asks: the configuration, the `aws` command and the library for
-- JSON.
pub record AwsDeps : Type 0 where
  pub creds_helpers : List String
  pub export_credentials : Result String
  pub decode : String → Result AwsCredentials

abbrev pub credential_env : Result AwsCredentials → List String
credential_env (ok c) =
    ("AWS_ACCESS_KEY_ID=" <> c.access_key_id)
    ∷ ("AWS_SECRET_ACCESS_KEY=" <> c.secret_access_key)
    ∷ ("AWS_SESSION_TOKEN=" <> c.session_token)
    ∷ []
credential_env _ = []

-- `ensureRemoteCredentials`: what it appends. It reports no error.
unfoldable pub ensure_remote_credentials : AwsDeps → List String
unfolding contains
ensure_remote_credentials a =
    if contains a.creds_helpers "ecr-login"
    then credential_env (a.export_credentials >>= a.decode)
    else []

module _ (d : Deps) (w : WinDeps) (a : AwsDeps) where
  unfoldable pub tables : Tables
  tables = record {
    aliases = alias_map;
    commands = command_handler_map w;
    args = arg_handler_map w d.iterate;
  }

  -- One variable that is passed on: COMPOSE_FILE is a path.
  unfoldable pub passed_value : String → String → Result String
  unfolding convert_to_wsl_path ◌==◌
  passed_value e v = if e == "COMPOSE_FILE" then convert_to_wsl_path w v else ok v

  unfoldable pub passed_env_args : List String → Result (List String)
  unfolding passed_value
  passed_env_args [] = ok []
  passed_env_args (e ∷ es) = elim (d.lookup_env e) [
    | none ↦ passed_env_args es
    | some v ↦ do
      value ← passed_value e v
      rest ← passed_env_args es
      ok ((e <> ("=" <> value)) ∷ rest)
  ]

  unfoldable pub additional_env : String → List String → List String
  unfolding wants_credentials ensure_remote_credentials
  additional_env name args = if wants_credentials name args then ensure_remote_credentials a else []

  -- `limaArgs`
  unfoldable pub lima_args : String → List String → Result (List String)
  unfolding passed_env_args additional_env get_cmd_args fields
  lima_args name args = do
    passed ← passed_env_args passed_envs
    cmd ← get_cmd_args w
    ok (cmd ++ ((additional_env name args ++ passed) ++ ("nerdctl" ∷ fields name)))

  -- `run`: the command, and whether the log level was set to debug on the way.
  unfoldable pub run : String → List String → Result (Exec × Bool)
  unfolding assert_vm_is_running find_handlers_in tables run_command_handler parse_args lima_args
      choose_exec
  run cmd_name args = do
    assert_vm_is_running d
    let h = find_handlers_in tables cmd_name args
    c ← run_command_handler d h.command (record { name = h.name; args = args; inspect_type = "" })
    p ← parse_args d h.args c.name c.args
    lima ← lima_args c.name p.args
    ok (choose_exec d c p (lima ++ p.nerdctl_args), p.debug)

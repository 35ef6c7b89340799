-- ===== src/Command.antt =====
-- pkg/command: how a command for limactl or nerdctl is made, with its environment.
pub mod Environ
pub mod Create
use finch.Prelude.{String, ◌<>◌, List, [], ◌∷◌, ◌++◌, if◌then◌else◌}
use finch.Prelude.Act.{Act, ◌>>=◌}
use finch.Text.{has_prefix, replace_all}
use finch.Text.FilePath.{join_path}

-- `replaceOrAppend`
unfoldable pub replace_or_append : List String → String → String → List String
unfolding has_prefix
replace_or_append [] name entry = entry ∷ []
replace_or_append (e ∷ es) name entry =
    let rest = replace_or_append es name entry in
    if has_prefix e (name <> "=") then entry ∷ es else e ∷ rest

-- nerdctl_unix.go and nerdctl_windows.go
pub data Platform : Type 0 where
  unix windows : Platform

-- `EnvKeyPath`
abbrev pub path_key : Platform → String
path_key unix = "PATH"
path_key windows = "Path"

-- `EnvKeyPathJoiner`
abbrev pub path_joiner : Platform → String
path_joiner unix = ":"
path_joiner windows = "\\;"

-- `Replacement`
pub record Replacement : Type 0 where
  pub source : String
  pub target : String

-- What is executed.
pub record Created : Type 0 where
  pub bin : String
  pub args : List String
  pub env : List String

-- `nerdctlCmdCreator` of nerdctl_remote.go, with what it asks the system for.
pub record RemoteCreator : Type 0 where
  pub platform : Platform
  pub lima_home_path : String
  pub limactl_path : String
  pub bin_path : String
  -- `Env`
  pub getenv : String → String
  pub environ : List String

abbrev pub lima_home_key : String
lima_home_key = "LIMA_HOME"

module _ (r : RemoteCreator) where
  abbrev pub search_path : String
  search_path = r.bin_path <> (path_joiner r.platform <> r.getenv (path_key r.platform))

  -- `create` of nerdctl_remote.go
  unfoldable pub create : List String → Created
  unfolding replace_or_append
  create args = record {
    bin = r.limactl_path;
    args = args;
    env =
        replace_or_append
          (replace_or_append r.environ lima_home_key (lima_home_key <> ("=" <> r.lima_home_path)))
          (path_key r.platform) (path_key r.platform <> ("=" <> search_path));
  }

-- `nerdctlCmdCreator` of nerdctl_native.go
pub record NativeCreator : Type 0 where
  pub nerdctl_config_path : String
  pub buildkit_socket_path : String
  pub bin_path : String
  pub getenv : String → String
  pub environ : List String

-- `create` of nerdctl_native.go
unfoldable pub create_native : NativeCreator → List String → Created
unfolding replace_or_append join_path
create_native n args = record {
  bin = join_path (n.bin_path ∷ "nerdctl" ∷ []);
  args = args;
  env =
      replace_or_append n.environ "PATH"
        ("PATH" <> ("=" <> (n.bin_path <> (":" <> n.getenv "PATH"))))
      ++ (("NERDCTL_TOML" <> ("=" <> n.nerdctl_config_path))
          ∷ ("BUILDKIT_HOST" <> ("=" <> ("unix://" <> n.buildkit_socket_path)))
          ∷ []);
}

-- `replaceBytes`; no source is empty.
unfoldable pub replace_bytes : String → List Replacement → String
unfolding replace_all
replace_bytes s [] = s
replace_bytes s (r ∷ rs) = replace_bytes (replace_all s r.source r.target) rs

-- Processes, and the standard output of this one.
pub record Runner : Type 1 where
  pub World : Type 0
  -- `Run` with a buffer for the standard output
  pub output : Created → Act World String
  pub write_stdout : String → Act World (Unit {0})

-- `RunWithReplacingStdout`
unfoldable pub run_with_replacing_stdout :
    (h : Runner) → List Replacement → Created → Act h.World (Unit {0})
unfolding replace_bytes
run_with_replacing_stdout h rs c = do out ← h.output c; h.write_stdout (replace_bytes out rs)

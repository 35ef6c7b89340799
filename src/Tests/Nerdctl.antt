-- ===== src/Tests/Nerdctl.antt =====
-- Command lines of cmd/finch/nerdctl_darwin_test.go, and the theorems on nerdctl at such lines.
use finch.Prelude.{
  String, ◌≡◌, refl, Bool, false, Option, none, some, List, [], ◌∷◌, ◌==◌, if◌then◌else◌, insert,
  Result, ok, err, panicked, not_exist, contains, lookup, delete,
}
use finch.Lima.{get_vm_status, to_vm_status}
use finch.Text.Characters.{characters}
use finch.Text.{
  len, slice_from, slice_to, has_prefix, contains_text, has_char, cut_before, cut_after, split,
  join, trim_space, fields,
}
use finch.Text.FilePath.{clean}
use finch.Nerdctl.Deps.{Deps, OrderedMap, IsOrdered}
use finch.Nerdctl.Flags.{classify, cmd_flag_set_map, arg_is_env}
use finch.Nerdctl.Values.{
  handle_env, resolve_env, handle_flag_arg, is_value, is_numeric_arg, is_digit,
}
use finch.Nerdctl.EnvFile.{
  handle_env_file, read_envs, envs_of_lines, env_of_line, scan_lines, too_long,
}
use finch.Nerdctl.Handlers.{
  arg_handler_map, handle_bind_mounts, rewrite_mount, mount_value, map_to_string, parse_mount,
  handle_docker_build_load, handle_buildx, handle_docker_compat_inspect, scan_inspect,
}
use finch.Nerdctl.Scan.{
  scan_args, loop, round, switch_round, resolve_ip, first_opt_pos, before,
  handle_multiple_short_flags, apply_handler,
}
use finch.Nerdctl.Envs.{set_envs, env_vars, env_args, passed_env_args}
use finch.Nerdctl.Run.{
  Exec, run_command, run, assert_vm_is_running, run_command_handler, find_handlers, parse_args,
  parse_options, parse_plain, add_plain, choose_exec, lima_args, additional_env, wants_credentials,
  docker_compat_compose_version, should_replace_for_help,
}

abbrev pub list_map : OrderedMap
list_map = record { M = List (String × String); new = []; set = insert; pairs = λ m. m }

pub list_map-IsOrdered : IsOrdered list_map
list_map-IsOrdered = record { pairs-new = refl; pairs-set = λ k v m. refl }

abbrev pub host_env : String → Option String
host_env name = if name == "HOST" then some "h1" else none

abbrev pub deps : Deps
deps = record {
  docker_compat = false;
  lookup_env = host_env;
  open_file = λ name.
      if name == "/env"
      then ok (record { text = "A=1\n# x\n\nHOST\n"; read_error = none })
      else err not_exist;
  limactl = λ args. record { out = "Running\n"; failed = none };
  ordered_map = list_map;
  iterate = λ m. m;
  host_gateway_name = "host-gateway";
  gateway = ok "192.168.5.2";
}

-- `run` with all that it calls unfolded.
test_run : Deps → String → List String → Result (Exec × Bool)
unfolding run assert_vm_is_running get_vm_status to_vm_status run_command_handler find_handlers
    parse_args parse_options parse_plain add_plain scan_args loop round switch_round resolve_ip
    classify cmd_flag_set_map arg_is_env first_opt_pos before handle_multiple_short_flags
    apply_handler arg_handler_map handle_bind_mounts rewrite_mount mount_value map_to_string
    parse_mount handle_docker_build_load handle_buildx handle_docker_compat_inspect scan_inspect
    handle_env resolve_env handle_flag_arg is_value is_numeric_arg is_digit handle_env_file
    read_envs envs_of_lines env_of_line scan_lines too_long clean set_envs env_vars env_args
    passed_env_args choose_exec docker_compat_compose_version lima_args additional_env
    wants_credentials should_replace_for_help contains lookup insert delete ◌==◌ trim_space
    has_prefix cut_before cut_after split join len slice_from slice_to has_char contains_text
    characters fields
test_run = run

add_host_run :
    test_run deps "run" ("--rm" ∷ "--add-host" ∷ "name:host-gateway" ∷ "alpine:latest" ∷ [])
    ≡ ok (
      run_command (
          "shell" ∷ "finch" ∷ "sudo" ∷ "-E" ∷ "nerdctl" ∷ "container" ∷ "run" ∷ "--rm"
          ∷ "--add-host" ∷ "name:192.168.5.2" ∷ "alpine:latest" ∷ []),
      false,
    )
unfolding test_run
add_host_run = refl

-- A group of short flags as the last argument: the index behind it is read, and the run faults.
short_group_run : test_run deps "run" ("-it" ∷ []) ≡ panicked
unfolding test_run
short_group_run = refl

env_file_run :
    test_run deps "run" ("--env-file" ∷ "/env" ∷ "-e" ∷ "A=2" ∷ "--name" ∷ "x" ∷ "img" ∷ "-e" ∷ [])
    ≡ ok (
      run_command (
          "shell" ∷ "finch" ∷ "sudo" ∷ "-E" ∷ "nerdctl" ∷ "container" ∷ "run" ∷ "--name" ∷ "x"
          ∷ "-e" ∷ "A=2" ∷ "-e" ∷ "HOST=h1" ∷ "img" ∷ "-e" ∷ []),
      false,
    )
unfolding test_run
env_file_run = refl

-- Two bytes that are one character in UTF-8, and one that is in none.
characters_of_bytes : characters "Ã©o©" ≡ "Ã©" ∷ "o" ∷ "©" ∷ []
unfolding characters
characters_of_bytes = refl

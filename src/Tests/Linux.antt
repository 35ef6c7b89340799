-- ===== src/Tests/Linux.antt =====
-- The theorems on the Linux build: `inspect`, whose handler is passed over, and of `run -h`.
use finch.Prelude.{◌==◌, true, false, [], ◌∷◌, ◌≡◌, refl, ok, contains, lookup}
use finch.Text.{split, cut_before}
use finch.Nerdctl.Deps.{Deps}
use finch.Nerdctl.Handlers.{arg_handler_map}
use finch.Nerdctl.Run.{handlers_of, run_command, should_replace_for_help}
use finch.Linux.{
  without_first_debug, find_handlers_linux, handle_arguments, choose_exec_linux, run_linux,
}
use finch.Linux.Direct.{run_linux-direct, run_linux-alias}
use finch.Tests.Nerdctl.{deps}

abbrev docker_deps : Deps
docker_deps = record deps { docker_compat = true }

run_linux-direct_example :
    run_linux docker_deps "inspect" ("--debug" ∷ "web" ∷ [])
    ≡ ok (run_command ("inspect" ∷ "web" ∷ []), true)
unfolding without_first_debug lookup ◌==◌ arg_handler_map split should_replace_for_help contains
run_linux-direct_example =
    run_linux-direct docker_deps "inspect" "web" ("--debug" ∷ "web" ∷ []) [] refl refl refl refl
      refl refl

-- An alias keeps its name, and `-h` is the name of the host there.
run_host_name :
    run_linux deps "run" ("-h" ∷ "web" ∷ "alpine" ∷ [])
    ≡ ok (run_command ("run" ∷ "-h" ∷ "web" ∷ "alpine" ∷ []), false)
unfolding run_linux without_first_debug lookup ◌==◌ arg_handler_map contains cut_before split
    find_handlers_linux handle_arguments choose_exec_linux should_replace_for_help handlers_of
run_host_name = refl

run_linux-alias_example :
    run_linux deps "run" ("-h" ∷ "web" ∷ "alpine" ∷ [])
    ≡ ok (run_command ("run" ∷ "-h" ∷ "web" ∷ "alpine" ∷ []), false)
unfolding without_first_debug lookup ◌==◌ arg_handler_map contains cut_before split
    should_replace_for_help
run_linux-alias_example =
    run_linux-alias deps "run" "container run" ("-h" ∷ "web" ∷ "alpine" ∷ [])
      ("-h" ∷ "web" ∷ "alpine" ∷ []) refl refl refl (refl, (refl, (refl, tt))) refl

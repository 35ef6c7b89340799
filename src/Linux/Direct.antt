-- ===== src/Linux/Direct.antt =====
-- What the Linux build hands to nerdctl without a change.
use finch.Prelude.{
  String, ◌<>◌, ◌==◌, false, Option, none, some, List, [], ◌∷◌, ◌++◌, ◌≡◌, refl, ap, if◌then◌else◌,
  contains, lookup, head?, get_or, ok,
}
use finch.Text.{split}
use finch.Nerdctl.Deps.{Deps}
use finch.Nerdctl.Handlers.{ArgHandler, alias_map, command_handler_map, arg_handler_map}
use finch.Nerdctl.Scan.PassThrough.{
  Unhandled, Agrees, get_or-Agrees, Agrees-head?, apply_handler-none, Unhandled-nil,
}
use finch.Nerdctl.Run.{
  handlers_of, replacing_stdout, run_command, should_replace_for_help,
  docker_compat_compose_version,
}
use finch.Linux.{
  without_first_debug, find_handlers_linux, linux_tables, handle_arguments, choose_exec_linux,
  run_linux,
}

module _ (d : Deps) where
  handle_arguments-Unhandled :
      (handlers : List (String × ArgHandler)) (pending : Option String) (args : List String)
      → Agrees pending args
      → Unhandled handlers args
      → handle_arguments d handlers pending args ≡ ok args
  unfolding handle_arguments
  handle_arguments-Unhandled handlers pending [] a u = refl
  handle_arguments-Unhandled handlers pending (x ∷ rest) a u =
      rw
        (
          get_or-Agrees pending x rest a,
          apply_handler-none handlers d.docker_compat x (head? rest) u.0,
          handle_arguments-Unhandled handlers (head? rest) rest (Agrees-head? rest) u.1,
        )
        refl

  choose_exec_linux-plain :
      (name : String) (c : List String) (args : List String)
      → (name == "compose") ≡ false
      → choose_exec_linux d
          (record { name = name; args = c; inspect_type = "" })
          (split name b' ')
          args
        ≡ (if should_replace_for_help (get_or (head? (split name b' ')) "") args
            then replacing_stdout (split name b' ' ++ args)
            else run_command (split name b' ' ++ args))
  unfolding choose_exec_linux docker_compat_compose_version ◌==◌
  choose_exec_linux-plain name c args h = rw (h, docker_compat_compose_version)

  no_handlers :
      (name a : String) (rest : List String)
      → lookup name alias_map ≡ none
      → arg_handler_map d.iterate name ≡ []
      → arg_handler_map d.iterate (name <> (" " <> a)) ≡ []
      → lookup (name <> (" " <> a)) command_handler_map ≡ none
      → find_handlers_linux (linux_tables d) name (a ∷ rest)
        ≡ record { name = name; command = none; args = [] }
  unfolding find_handlers_linux
  no_handlers name a rest f p q c = rw (f, find_handlers_linux) (rw (p) (rw (q, c) refl))

  -- A command other than compose that has no alias and no handlers for arguments, and has arguments
  -- beside the first `--debug`, where also the name with the first of these has no handler, goes to
  -- nerdctl with these arguments in their order, whatever handler its name alone has.
  pub run_linux-direct :
      (name a : String) (args rest : List String)
      → without_first_debug args ≡ a ∷ rest
      → lookup name alias_map ≡ none
      → arg_handler_map d.iterate name ≡ []
      → arg_handler_map d.iterate (name <> (" " <> a)) ≡ []
      → lookup (name <> (" " <> a)) command_handler_map ≡ none
      → (name == "compose") ≡ false
      → run_linux d name args
        ≡ ok (
          (if should_replace_for_help (get_or (head? (split name b' ')) "") (a ∷ rest)
              then replacing_stdout (split name b' ' ++ a ∷ rest)
              else run_command (split name b' ' ++ a ∷ rest)),
          contains args "--debug",
        )
  unfolding run_linux
  run_linux-direct name a args rest e f p q c n =
      rw (e, no_handlers name a rest f p q c)
        (rw (handle_arguments-Unhandled [] none (a ∷ rest) tt (Unhandled-nil (a ∷ rest))) (
          ap (λ x. ok (x, contains args "--debug"))
            (choose_exec_linux-plain name (a ∷ rest) (a ∷ rest) n)))

  alias_handlers :
      (name alias : String) (args : List String)
      → lookup name alias_map ≡ some alias
      → lookup alias command_handler_map ≡ none
      → find_handlers_linux (linux_tables d) name args
        ≡ record { name = name; command = none; args = arg_handler_map d.iterate alias }
  unfolding find_handlers_linux handlers_of
  alias_handlers name alias args a c = rw (a, find_handlers_linux) (rw c refl)

  -- A command other than compose that has an alias keeps its own name; only the handlers are those of
  -- the alias. Where the alias has no handler of its own and none for an argument, nerdctl gets the
  -- name as it was given, with the arguments in their order, less the first `--debug`.
  pub run_linux-alias :
      (name alias : String) (args kept : List String)
      → without_first_debug args ≡ kept
      → lookup name alias_map ≡ some alias
      → lookup alias command_handler_map ≡ none
      → Unhandled (arg_handler_map d.iterate alias) kept
      → (name == "compose") ≡ false
      → run_linux d name args
        ≡ ok (
          (if should_replace_for_help (get_or (head? (split name b' ')) "") kept
              then replacing_stdout (split name b' ' ++ kept)
              else run_command (split name b' ' ++ kept)),
          contains args "--debug",
        )
  unfolding run_linux
  run_linux-alias name alias args kept e a c u n =
      rw (e, alias_handlers name alias kept a c)
        (rw (handle_arguments-Unhandled (arg_handler_map d.iterate alias) none kept tt u)
          (ap (λ x. ok (x, contains args "--debug")) (choose_exec_linux-plain name kept kept n)))

-- ===== src/Nerdctl/Run/Laws.antt =====
-- `run` as a whole: when it runs at all, and what the plain commands hand to nerdctl.
use finch.Prelude.{
  String, Bool, false, ◌||◌, ◌≡◌, refl, ap, ◌∙◌, Option, none, inl, inr, List, [], ◌∷◌, ◌++◌,
  append-nil, append_assoc, ◌==◌, if◌then◌else◌, contains, head?, Result, ok, err, panicked,
  Bool-cases, true,
}
use mathlib.Core.Bool.{or-true, or-false}
use finch.Lima.Laws.{get_vm_status-ne-unknown}
use finch.Lima.{VmStatus, get_vm_status, status_args, lima_instance_name}
use finch.Nerdctl.Deps.{Deps, IsOrdered}
use finch.Nerdctl.Flags.{ArgKind, classify, cmd_flag_set_map}
use finch.Nerdctl.Scan.{start, before, first_opt_pos, scan_args}
use finch.Nerdctl.Envs.{env_vars, env_args}
use finch.Nerdctl.Run.{
  parse_options, Exec, replacing_stdout, run_command, Parsed, Handlers, should_replace_for_help,
  assert_vm_is_running, find_handlers, run_command_handler, parse_plain, add_plain, has_options,
  parse_args, choose_exec, lima_args, run, docker_compat_compose_version,
}
use finch.Nerdctl.Handlers.{ArgHandler}
use finch.Nerdctl.Scan.PassThrough.{
  loop-positional, Unhandled, Agrees, get_or-Agrees, Agrees-head?, apply_handler-none,
}

-- The arguments but for each `--debug`.
unfoldable pub without_debug : List String → List String
without_debug [] = []
without_debug (a ∷ args) =
    let rest = without_debug args in if a == "--debug" then rest else a ∷ rest

module _ (d : Deps) where
  pub parse_plain_lem :
      (handlers : List (String × ArgHandler)) (pending : Option String) (args : List String)
      (p : Parsed)
      → Agrees pending args
      → Unhandled handlers args
      → parse_plain d handlers pending args p
        ≡ ok (record p {
          nerdctl_args = p.nerdctl_args ++ without_debug args;
          args = p.args ++ args;
          debug = p.debug || contains args "--debug";
        })
  unfolding parse_plain add_plain without_debug contains
  parse_plain_lem handlers pending [] p a u = simp (append-nil, or-false)
  parse_plain_lem handlers pending (x ∷ rest) p a u =
      rw
        (
          get_or-Agrees pending x rest a,
          apply_handler-none handlers d.docker_compat x (head? rest) u.0,
        )
        (parse_plain_lem handlers (head? rest) rest (add_plain d x p) (Agrees-head? rest) u.1
          ∙ added)
    where
      added :
          ok (record (add_plain d x p) {
            nerdctl_args = (add_plain d x p).nerdctl_args ++ without_debug rest;
            args = (add_plain d x p).args ++ rest;
            debug = (add_plain d x p).debug || contains rest "--debug";
          })
          ≡ ok (record p {
            nerdctl_args = p.nerdctl_args ++ without_debug (x ∷ rest);
            args = p.args ++ x ∷ rest;
            debug = p.debug || contains (x ∷ rest) "--debug";
          })
      added = elim (Bool-cases (x == "--debug")) [
        | inl e ↦ simp (e, append_assoc, or-true)
        | inr e ↦ simp (e, append_assoc)
      ]

  -- `run` gets past its first step only while the machine is running.
  run-ok_running :
      (name : String) (args : List String) (r : Exec × Bool)
      → run d name args ≡ ok r
      → get_vm_status lima_instance_name (d.limactl (status_args lima_instance_name))
        ≡ ok VmStatus.running
  unfolding run assert_vm_is_running
  run-ok_running name args r h =
      go (get_vm_status lima_instance_name (d.limactl (status_args lima_instance_name))) refl
    where
      go :
          (s : Result VmStatus)
          → get_vm_status lima_instance_name (d.limactl (status_args lima_instance_name)) ≡ s
          → s ≡ ok VmStatus.running
      go (ok VmStatus.running) e = refl
      go (ok VmStatus.unknown) e = absurd (get_vm_status-ne-unknown _ _ e)
      go (ok VmStatus.stopped) e = cc (rw e at h)
      go (ok VmStatus.nonexistent) e = cc (rw e at h)
      go (err x) e = cc (rw e at h)
      go panicked e = cc (rw e at h)

  pub choose_exec-plain :
      (name : String) (args : List String) (p : Parsed) (run_args : List String)
      → (name == "compose") ≡ false
      → choose_exec d (record { name = name; args = args; inspect_type = "" }) p run_args ≡ (
          if should_replace_for_help name p.args
          then replacing_stdout run_args
          else run_command run_args)
  unfolding choose_exec docker_compat_compose_version ◌==◌
  choose_exec-plain name args p run_args h = rw (h, docker_compat_compose_version)

  -- `container run` and `exec` whose arguments begin with the name of the image or container, with no
  -- handler for any argument, hand nerdctl all arguments as they stand and in their order, the
  -- passed variables in front; `--debug` behind the name does not set the log level.
  pub run-positional :
      (law : IsOrdered d.ordered_map) (name arg : String) (rest : List String) (h : Handlers)
      → get_vm_status lima_instance_name (d.limactl (status_args lima_instance_name))
        ≡ ok VmStatus.running
      → find_handlers d name (arg ∷ rest) ≡ h
      → h.command ≡ none
      → has_options d h.name ≡ true
      → (h.name == "compose") ≡ false
      → Unhandled h.args (arg ∷ rest)
      → classify (cmd_flag_set_map h.name) arg ≡ ArgKind.positional
      → before 0 (first_opt_pos (arg ∷ rest)) ≡ false
      → run d name (arg ∷ rest)
        ≡ ok (
          (if should_replace_for_help h.name (arg ∷ rest)
              then replacing_stdout (lima_args d h.name (arg ∷ rest) ++ arg ∷ rest)
              else run_command (lima_args d h.name (arg ∷ rest) ++ arg ∷ rest)),
          false,
        )
  unfolding run assert_vm_is_running run_command_handler parse_args parse_options scan_args env_vars
      env_args
  run-positional law name arg rest h up found bare plain compose u c b =
      rw
        (
          up,
          found,
          bare,
          plain,
          loop-positional d h.args (cmd_flag_set_map h.name) (first_opt_pos (arg ∷ rest)) 0 arg rest
              start u refl refl c b,
          law.pairs-new,
        )
        (ap (λ e. ok (e, false)) (choose_exec-plain h.name (arg ∷ rest) _ _ compose))

-- ===== src/Vm/Commands/Order.antt =====
-- The calls that each command makes, and their order.
use finch.Prelude.{if◌then◌else◌, String, Bool, true, false, List, [], ◌∷◌, ◌++◌, Result, ok, refl}
use finch.Lima.{VmStatus, lima_instance_name, status_args}
use finch.Vm.Action.{pure, lift, ignore_error}
use finch.Vm.Action.Follows.{Follows, Follows-lift, Follows-perform, Follows-ignore, Follows-bind}
use finch.Vm.Host.{
  Host, Call, limactl, override_yaml, ensure_disk, detach_disk, stop_server, install_deps, call,
  check_limactl, status,
}
use finch.Vm.Commands.{
  stop_server_first, stop_vm, force_args, check_running_to_stop, check_stopped_to_remove,
  check_stopped_to_start, start_run, stop_run, remove_run, assert_status,
}

abbrev pub ask_status : Call
ask_status = limactl (status_args lima_instance_name)

module _ (h : Host) where
  Follows-check_limactl : (args : List String) → Follows (limactl args ∷ []) (check_limactl h args)
  Follows-check_limactl args = record {
    at = λ s. record {
      made = limactl args ∷ [];
      left = [];
      whole = refl;
      calls = refl;
      finished = λ _. refl;
    };
  }

  Follows-status : Follows (ask_status ∷ []) (status h)
  unfolding status
  Follows-status = record {
    at = λ s. record {
      made = ask_status ∷ [];
      left = [];
      whole = refl;
      calls = refl;
      finished = λ _. refl;
    };
  }

  Follows-assert_status :
      (check : VmStatus → Result (Unit {0})) → Follows (ask_status ∷ []) (assert_status h check)
  Follows-assert_status check =
      Follows-bind {p = ask_status ∷ []} {q = []} (status h) (λ s. lift (check s)) Follows-status
        (λ s. Follows-lift (check s))

  -- `vm start` asks for the status, then installs dependencies, writes the configuration, prepares
  -- the disk and starts the machine, in this order. Each of its runs makes the first of these calls
  -- and no other, and all five if it succeeds.
  pub start_run-Follows :
      Follows
        (ask_status
          ∷ install_deps
          ∷ override_yaml
          ∷ ensure_disk
          ∷ limactl ("start" ∷ lima_instance_name ∷ [])
          ∷ [])
        (start_run h)
  unfolding start_run
  start_run-Follows =
      Follows-bind {p = ask_status ∷ []} _ _ (Follows-assert_status check_stopped_to_start) λ _.
        Follows-bind {p = install_deps ∷ []} _ _ (Follows-ignore _ h.install_optional_deps) λ _.
          Follows-bind {p = override_yaml ∷ []} _ _
            (Follows-perform _ h.configure_override_lima_yaml)
            λ _.
              Follows-bind {p = ensure_disk ∷ []} _ _ (Follows-perform _ h.ensure_user_data_disk)
                λ _. Follows-check_limactl _

  Follows-server :
      (b : Bool)
      → Follows
          (if b then stop_server ∷ [] else [])
          (if b then ignore_error (call h stop_server h.stop_credential_server) else pure tt)
  Follows-server true = Follows-ignore stop_server h.stop_credential_server
  Follows-server false = Follows-lift (ok tt)

  -- The credential server is stopped first, where the executable is known.
  abbrev pub server_plan : List Call
  server_plan = if h.has_executable then stop_server ∷ [] else []

  abbrev pub halt_plan : String → Bool → List Call
  halt_plan verb force = server_plan ++ detach_disk ∷ limactl (force_args h verb force) ∷ []

  Follows-stop_vm :
      (verb : String) (force : Bool) → Follows (halt_plan verb force) (stop_vm h verb force)
  unfolding stop_vm stop_server_first
  Follows-stop_vm verb force =
      Follows-bind {p = server_plan} _ _ (Follows-server h.has_executable) λ _.
        Follows-bind {p = detach_disk ∷ []} _ _ (Follows-ignore _ h.detach_user_data_disk)
          λ _. Follows-check_limactl (force_args h verb force)

  abbrev pub asked : Bool → List Call
  asked force = if force then [] else ask_status ∷ []

  -- `vm stop` asks for the status unless it is forced; then it stops the credential server,
  -- detaches the disk and stops the machine, in this order, and makes all these calls if it succeeds.
  stop_run-Follows :
      (force : Bool) → Follows (asked force ++ halt_plan "stop" force) (stop_run h force)
  unfolding stop_run
  stop_run-Follows true = Follows-stop_vm "stop" true
  stop_run-Follows false =
      Follows-bind _ _ (Follows-assert_status check_running_to_stop)
        (λ _. Follows-stop_vm "stop" false)

  -- `vm remove` makes the calls of `vm stop`, with its own word for limactl.
  pub remove_run-Follows :
      (force : Bool) → Follows (asked force ++ halt_plan "remove" force) (remove_run h force)
  unfolding remove_run
  remove_run-Follows true = Follows-stop_vm "remove" true
  remove_run-Follows false =
      Follows-bind _ _ (Follows-assert_status check_stopped_to_remove)
        (λ _. Follows-stop_vm "remove" false)

-- ===== src/Vm/Commands/Refine.antt =====
-- The commands as steps of the machine's state, over a limactl that does what it documents.
use finch.Prelude.{
  String, Bool, false, List, [], ◌∷◌, ◌≡◌, refl, ◌∙◌, none, Result, ok, err, Option, some, Error,
  ap, ◌≢◌, panicked,
}
use finch.Lima.{VmStatus, running, unknown, lima_instance_name}
use finch.Lima.Laws.{get_vm_status-ne-unknown}
use finch.Vm.Action.{St, Action, lift, continue, ◌>>=◌, ignore_error, forget}
use finch.Vm.Action.Follows.{IsOk}
use finch.Vm.Host.{
  install_deps, override_yaml, default_yaml, ensure_disk, detach_disk, Call, Host, Cmd, call,
  check_limactl, status,
}
use finch.Vm.Commands.{
  check_stopped_to_start, check_running_to_stop, check_stopped_to_remove, check_nonexistent,
  assert_status, start_run, init_run, stop_run, remove_run, stop_vm, stop_server_first, force_args,
  or_detach,
}
use finch.Vm.Commands.Machine.{
  create_args, IsLima, Step, Step-start, Step-init, Step-stop, Step-remove,
}

Ok-continue :
    {C W A B : Type 0} (r : Result A) (f : A → Action C W B) (s : St C W)
    → IsOk (continue r f s).0
    → IsOk r
Ok-continue (ok a) f s o = tt
Ok-continue (err e) f s o = o
Ok-continue panicked f s o = o

-- What is raised after an ignored error is raised.
raised :
    {C W : Type 0} (r : Result (Unit {0})) (e : Error) (s : St C W)
    → IsOk (continue r (λ _. lift {C = C} {W = W} {A = Unit {0}} (err e)) s).0
    → ⊥
raised (ok a) e s o = o
raised (err e') e s o = o
raised panicked e s o = o

ok_none :
    (failed : Option Error) → IsOk (elim failed [ none ↦ ok tt | some e ↦ err e ]) → failed ≡ none
ok_none none o = refl
ok_none (some e) o = absurd o

module _ (h : Host) (view : h.World → VmStatus) where
  -- Where an action succeeds, the machine is in the state `v`.
  record Ends {A : Type 0} (v : VmStatus) (m : Cmd h A) : Type 0 where
    at : (s : St Call h.World) → IsOk (m s).0 → view (m s).1.world ≡ v

  Ends-bind :
      {A B : Type 0} {v : VmStatus} (m : Cmd h A) (f : A → Cmd h B)
      → ((a : A) → Ends v (f a))
      → Ends v (m >>= f)
  Ends-bind {A} {B} {v} m f kf = record { at = λ s. go (m s).0 (m s).1 }
    where
      go :
          (r : Result A) (s : St Call h.World)
          → IsOk (continue r f s).0
          → view (continue r f s).1.world ≡ v
      go (ok a) s o = (kf a).at s o
      go (err e) s o = absurd o
      go panicked s o = absurd o

  Ends-check_limactl :
      {v : VmStatus} (args : List String)
      → ((w : h.World) → (h.run_limactl args w).0.failed ≡ none → view (h.run_limactl args w).1 ≡ v)
      → Ends v (check_limactl h args)
  Ends-check_limactl args law = record { at = λ s o. law s.world (ok_none _ o) }

module _ (h : Host) (view : h.World → VmStatus) (lima : IsLima h view) where
  asserted :
      (check : VmStatus → Result (Unit {0})) (s : St Call h.World)
      → (assert_status h check s).0 ≡ check (view s.world)
  unfolding status
  asserted check s = rw lima.ls

  -- A command that asks for the state and goes on runs in a state that passes the check.
  passed :
      {A : Type 0} (check : VmStatus → Result (Unit {0})) (f : Unit {0} → Cmd h A)
      (s : St Call h.World)
      → IsOk ((assert_status h check >>= f) s).0
      → IsOk (check (view s.world))
  passed check f s o =
      rw (asserted check s) at
        (Ok-continue (assert_status h check s).0 f (assert_status h check s).1 o)

  known : (w : h.World) → view w ≢ unknown
  known w e = get_vm_status-ne-unknown _ _ (lima.ls w ∙ ap ok e)

  created :
      (base : String)
      → Ends h view running
          (λ s. let (r, s') = check_limactl h (create_args base) s in or_detach h r s')
  unfolding or_detach
  created base = record { at = λ s. go s _ (lima.create base s.world) }
    where
      go :
          (s : St Call h.World) (failed : Option Error)
          → (failed ≡ none → view (h.run_limactl (create_args base) s.world).1 ≡ running)
          → IsOk
              (or_detach h
                (elim failed [ none ↦ ok tt | some e ↦ err e ])
                (check_limactl h (create_args base) s).1).0
          → view
              (or_detach h
                (elim failed [ none ↦ ok tt | some e ↦ err e ])
                (check_limactl h (create_args base) s).1).1.world
            ≡ running
      go s none law o = law refl
      go s (some e) law o = absurd (raised (forget (h.detach_user_data_disk _).0) e _ o)

  -- A start that succeeds takes a stopped machine to a running one.
  pub start_run-Step :
      (s : St Call h.World)
      → IsOk (start_run h s).0
      → Step (view s.world) (view (start_run h s).1.world)
  unfolding start_run
  start_run-Step s o =
      rw (ends.at s o)
        (Step-start (view s.world) (known s.world) (passed check_stopped_to_start _ s o))
    where
      ends : Ends h view running (start_run h)
      ends = Ends-bind h view (assert_status h check_stopped_to_start) _ λ _.
          Ends-bind h view (ignore_error (call h install_deps h.install_optional_deps)) _ λ _.
            Ends-bind h view (call h override_yaml h.configure_override_lima_yaml) _ λ _.
              Ends-bind h view (call h ensure_disk h.ensure_user_data_disk) _
                λ _. Ends-check_limactl h view ("start" ∷ lima_instance_name ∷ []) lima.start

  -- `vm init` succeeds only where there is no machine, and leaves one that runs.
  pub init_run-Step :
      (base : String) (s : St Call h.World)
      → IsOk (init_run h base s).0
      → Step (view s.world) (view (init_run h base s).1.world)
  unfolding init_run
  init_run-Step base s o =
      rw (ends.at s o) (Step-init (view s.world) (known s.world) (passed check_nonexistent _ s o))
    where
      ends : Ends h view running (init_run h base)
      ends = Ends-bind h view (assert_status h check_nonexistent) _ λ _.
          Ends-bind h view (call h default_yaml h.configure_default_lima_yaml) _ λ _.
            Ends-bind h view (call h override_yaml h.configure_override_lima_yaml) _ λ _.
              Ends-bind h view (ignore_error (call h install_deps h.install_optional_deps)) _ λ _.
                Ends-bind h view (ignore_error (call h detach_disk h.detach_user_data_disk)) _ λ _.
                  Ends-bind h view (call h ensure_disk h.ensure_user_data_disk) _ λ _. created base

  Ends-stop_vm :
      {v : VmStatus} (verb : String) (force : Bool)
      → ((w : h.World)
          → (h.run_limactl (force_args h verb force) w).0.failed ≡ none
          → view (h.run_limactl (force_args h verb force) w).1 ≡ v)
      → Ends h view v (stop_vm h verb force)
  unfolding stop_vm
  Ends-stop_vm verb force law = Ends-bind h view (stop_server_first h) _ λ _.
      Ends-bind h view (ignore_error (call h detach_disk h.detach_user_data_disk)) _
        λ _. Ends-check_limactl h view (force_args h verb force) law

  -- A stop that is not forced, and succeeds, takes a running machine to a stopped one.
  stop_run-Step :
      (s : St Call h.World)
      → IsOk (stop_run h false s).0
      → Step (view s.world) (view (stop_run h false s).1.world)
  unfolding stop_run
  stop_run-Step s o =
      rw
        ((Ends-bind h view (assert_status h check_running_to_stop) _
            λ _. Ends-stop_vm "stop" false (lima.stop false)).at
          s o)
        (Step-stop (view s.world) (known s.world) (passed check_running_to_stop _ s o))

  -- A removal that is not forced, and succeeds, takes a stopped machine away.
  remove_run-Step :
      (s : St Call h.World)
      → IsOk (remove_run h false s).0
      → Step (view s.world) (view (remove_run h false s).1.world)
  unfolding remove_run
  remove_run-Step s o =
      rw
        ((Ends-bind h view (assert_status h check_stopped_to_remove) _
            λ _. Ends-stop_vm "remove" false (lima.remove false)).at
          s o)
        (Step-remove (view s.world) (known s.world) (passed check_stopped_to_remove _ s o))

-- ===== src/Vm/Commands/Machine.antt =====
-- The life of a machine, and what limactl documents of the commands that the program gives it.
use finch.Prelude.{String, Bool, List, [], ◌∷◌, ◌≡◌, refl, none, ok, ◌≢◌}
use finch.Lima.{
  VmStatus, running, stopped, nonexistent, unknown, get_vm_status, status_args, lima_instance_name,
}
use finch.Vm.Action.Follows.{IsOk}
use finch.Vm.Host.{Host}
use finch.Vm.Commands.{
  check_stopped_to_start, check_running_to_stop, check_stopped_to_remove, check_nonexistent,
  force_args,
}

abbrev pub create_args : String → List String
create_args base = "start" ∷ "--name=finch" ∷ base ∷ "--tty=false" ∷ []

-- `view` is the state that limactl has for the instance. `ls` prints it; `start`, `stop` and
-- `remove` reach their state when they report no error; nothing else changes it.
pub record IsLima (h : Host) (view : h.World → VmStatus) : Type 0 where
  pub ls :
      (w : h.World)
      → get_vm_status lima_instance_name (h.run_limactl (status_args lima_instance_name) w).0
        ≡ ok (view w)
  pub ls_keeps : (w : h.World) → view (h.run_limactl (status_args lima_instance_name) w).1 ≡ view w
  pub start :
      (w : h.World)
      → (h.run_limactl ("start" ∷ lima_instance_name ∷ []) w).0.failed ≡ none
      → view (h.run_limactl ("start" ∷ lima_instance_name ∷ []) w).1 ≡ running
  pub create :
      (base : String) (w : h.World)
      → (h.run_limactl (create_args base) w).0.failed ≡ none
      → view (h.run_limactl (create_args base) w).1 ≡ running
  pub stop :
      (force : Bool) (w : h.World)
      → (h.run_limactl (force_args h "stop" force) w).0.failed ≡ none
      → view (h.run_limactl (force_args h "stop" force) w).1 ≡ stopped
  pub remove :
      (force : Bool) (w : h.World)
      → (h.run_limactl (force_args h "remove" force) w).0.failed ≡ none
      → view (h.run_limactl (force_args h "remove" force) w).1 ≡ nonexistent

-- The life of a machine.
pub data Step : VmStatus → VmStatus → Type 0 where
  init : Step nonexistent running
  start : Step stopped running
  stop : Step running stopped
  remove : Step stopped nonexistent

-- The checks on the status let the steps through, and nothing else.
pub Step-start : (v : VmStatus) → v ≢ unknown → IsOk (check_stopped_to_start v) → Step v running
unfolding check_stopped_to_start
Step-start running k o = absurd o
Step-start stopped k o = start
Step-start nonexistent k o = absurd o
Step-start unknown k o = absurd (k refl)

pub Step-init : (v : VmStatus) → v ≢ unknown → IsOk (check_nonexistent v) → Step v running
unfolding check_nonexistent
Step-init running k o = absurd o
Step-init stopped k o = absurd o
Step-init nonexistent k o = init
Step-init unknown k o = absurd (k refl)

pub Step-stop : (v : VmStatus) → v ≢ unknown → IsOk (check_running_to_stop v) → Step v stopped
unfolding check_running_to_stop
Step-stop running k o = stop
Step-stop stopped k o = absurd o
Step-stop nonexistent k o = absurd o
Step-stop unknown k o = absurd (k refl)

pub Step-remove :
    (v : VmStatus) → v ≢ unknown → IsOk (check_stopped_to_remove v) → Step v nonexistent
unfolding check_stopped_to_remove
Step-remove running k o = absurd o
Step-remove stopped k o = remove
Step-remove nonexistent k o = absurd o
Step-remove unknown k o = absurd (k refl)

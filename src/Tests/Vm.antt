-- ===== src/Tests/Vm.antt =====
-- The theorems on the commands for the machine, over a limactl that has one instance.
use finch.Prelude.{
  String, ◌≡◌, refl, Bool, true, false, none, some, List, [], ◌∷◌, ◌==◌, if◌then◌else◌, ok, err,
  message,
}
use finch.Text.{trim_space}
use finch.Lima.{Reply, VmStatus, running, stopped, nonexistent, get_vm_status, to_vm_status}
use finch.Vm.Action.{St}
use finch.Vm.Action.Follows.{Follows}
use finch.Vm.Host.{Host, Call, status, override_yaml, limactl, install_deps, ensure_disk}
use finch.Vm.Commands.{start_run, init_run, check_stopped_to_start, check_nonexistent, force_args}
use finch.Vm.Commands.Order.{start_run-Follows, ask_status}
use finch.Vm.Commands.Machine.{IsLima, Step}
use finch.Vm.Commands.Refine.{start_run-Step, init_run-Step}

data Instance : Type 0 where
  up down missing : Instance

view : Instance → VmStatus
view up = running
view down = stopped
view missing = nonexistent

printed : Instance → String
printed up = "Running\n"
printed down = "Stopped\n"
printed missing = ""

said : String → Reply
said text = record { out = text; failed = none }

verb_of : List String → String
verb_of [] = ""
verb_of (a ∷ args) = a

after : String → Instance → Reply × Instance
unfolding ◌==◌
after verb w =
    if verb == "ls"
    then (said (printed w), w)
    else if verb == "start"
    then (said "", up)
    else if verb == "stop"
    then (said "", down)
    else if verb == "remove"
    then (said "", missing)
    else (record { out = ""; failed = some (message "unknown command") }, w)

abbrev host : Host
host = record {
  World = Instance;
  run_limactl = λ args w. after (verb_of args) w;
  configure_default_lima_yaml = λ w. (ok tt, w);
  configure_override_lima_yaml = λ w. (ok tt, w);
  ensure_user_data_disk = λ w. (ok tt, w);
  detach_user_data_disk = λ w. (ok tt, w);
  install_optional_deps = λ w. (err (message "offline"), w);
  has_executable = true;
  is_daemon_running = λ w. false;
  start_credential_server = λ w. (ok tt, w);
  stop_credential_server = λ w. (ok tt, w);
  apply_nerdctl_config = λ address w. (ok tt, w);
  print_line = λ text w. (ok tt, w);
}

listed : (w : Instance) → get_vm_status "finch" (said (printed w)) ≡ ok (view w)
unfolding get_vm_status to_vm_status trim_space ◌==◌ printed view said
listed up = refl
listed down = refl
listed missing = refl

stops :
    (force : Bool) (w : Instance)
    → view (host.run_limactl (force_args host "stop" force) w).1 ≡ stopped
unfolding after verb_of view said
stops true w = refl
stops false w = refl

removes :
    (force : Bool) (w : Instance)
    → view (host.run_limactl (force_args host "remove" force) w).1 ≡ nonexistent
unfolding after verb_of view said
removes true w = refl
removes false w = refl

host-IsLima : IsLima host view
unfolding after verb_of said view
host-IsLima = record {
  ls = listed;
  ls_keeps = λ w. refl;
  start = λ w e. refl;
  create = λ base w e. refl;
  stop = λ force w e. stops force w;
  remove = λ force w e. removes force w;
}

abbrev state : Instance → St Call Instance
state w = record { world = w; calls = [] }

start_run-Step_example : Step stopped running
unfolding start_run status get_vm_status to_vm_status trim_space ◌==◌ after verb_of said view
    printed check_stopped_to_start
start_run-Step_example = start_run-Step host view host-IsLima (state down) tt

init_run-Step_example : Step nonexistent running
unfolding init_run status get_vm_status to_vm_status trim_space ◌==◌ after verb_of said view printed
    check_nonexistent
init_run-Step_example = init_run-Step host view host-IsLima "base.yaml" (state missing) tt

start_run-Follows_example :
    Follows
      (ask_status
        ∷ install_deps
        ∷ override_yaml
        ∷ ensure_disk
        ∷ limactl ("start" ∷ "finch" ∷ [])
        ∷ [])
      (start_run host)
start_run-Follows_example = start_run-Follows host

-- ===== src/Vm/Commands.antt =====
-- The `run` methods of the actions for `vm init`, `start`, `stop`, `remove` and `status`, and what
-- runs after a start.
pub mod Order
pub mod Machine
pub mod Refine
use finch.Prelude.{
  String, ◌<>◌, Bool, true, false, not, Option, none, some, List, [], ◌∷◌, ◌==◌, if◌then◌else◌,
  Result, ok, err, message,
}
use finch.Text.{trim_space}
use finch.Lima.{Reply, VmStatus, running, stopped, nonexistent, unknown, lima_instance_name}
use finch.Vm.Action.{St, pure, lift, ◌>>=◌, ◌>>◌, ignore_error}
use finch.Vm.Host.{
  Host, Cmd, Call, default_yaml, override_yaml, ensure_disk, detach_disk, install_deps,
  start_server, stop_server, apply_config, print, call_limactl, check_limactl, call, status,
}

-- The switches on the status. The unknown state passes each of them.
unfoldable pub check_stopped_to_start : VmStatus → Result (Unit {0})
check_stopped_to_start nonexistent =
    err (
      message "the instance \"finch\" does not exist, run `finch vm init` to create a new instance")
check_stopped_to_start running = err (message "the instance \"finch\" is already running")
check_stopped_to_start _ = ok tt

unfoldable pub check_running_to_stop : VmStatus → Result (Unit {0})
check_running_to_stop nonexistent = err (message "the instance \"finch\" does not exist")
check_running_to_stop stopped = err (message "the instance \"finch\" is already stopped")
check_running_to_stop _ = ok tt

unfoldable pub check_stopped_to_remove : VmStatus → Result (Unit {0})
check_stopped_to_remove nonexistent = err (message "the instance \"finch\" does not exist")
check_stopped_to_remove running =
    err
      (message "the instance \"finch\" is running, run `finch vm stop` to stop the instance first")
check_stopped_to_remove _ = ok tt

unfoldable pub check_nonexistent : VmStatus → Result (Unit {0})
check_nonexistent stopped = err (
    message
      "the instance \"finch\" already exists but is stopped, run `finch vm start` to start the existing instance")
check_nonexistent running = err (message "the instance \"finch\" is already running")
check_nonexistent _ = ok tt

module _ (h : Host) where
  -- `assertVMIsStopped` and its like
  abbrev pub assert_status : (VmStatus → Result (Unit {0})) → Cmd h (Unit {0})
  assert_status check = do s ← status h; lift (check s)

  -- `startVMAction.run`
  unfoldable pub start_run : Cmd h (Unit {0})
  start_run = do
    assert_status check_stopped_to_start
    ignore_error (call h install_deps h.install_optional_deps)
    call h override_yaml h.configure_override_lima_yaml
    call h ensure_disk h.ensure_user_data_disk
    check_limactl h ("start" ∷ lima_instance_name ∷ [])

  -- After a failed start the disk is detached, and the error of the start is returned.
  or_detach : Result (Unit {0}) → Cmd h (Unit {0})
  or_detach (err e) = do ignore_error (call h detach_disk h.detach_user_data_disk); lift (err e)
  or_detach r = lift r

  -- `initVMAction.run`, with the path of the base configuration
  unfoldable pub init_run : String → Cmd h (Unit {0})
  unfolding or_detach
  init_run base = do
    assert_status check_nonexistent
    call h default_yaml h.configure_default_lima_yaml
    call h override_yaml h.configure_override_lima_yaml
    ignore_error (call h install_deps h.install_optional_deps)
    ignore_error (call h detach_disk h.detach_user_data_disk)
    call h ensure_disk h.ensure_user_data_disk
    λ s.
        let (r, s') = check_limactl h ("start" ∷ "--name=finch" ∷ base ∷ "--tty=false" ∷ []) s in
        or_detach r s'

  -- The first lines of `stopVM` and `removeVM`.
  unfoldable pub stop_server_first : Cmd h (Unit {0})
  stop_server_first =
      if h.has_executable
      then ignore_error (call h stop_server h.stop_credential_server)
      else pure tt

  abbrev pub force_args : String → Bool → List String
  force_args verb force =
      if force then verb ∷ "--force" ∷ lima_instance_name ∷ [] else verb ∷ lima_instance_name ∷ []

  -- `stopVM` and `removeVM`, which differ in the word for limactl
  unfoldable pub stop_vm : String → Bool → Cmd h (Unit {0})
  stop_vm verb force = do
    stop_server_first
    ignore_error (call h detach_disk h.detach_user_data_disk)
    check_limactl h (force_args verb force)

  -- `stopVMAction.run`
  unfoldable pub stop_run : Bool → Cmd h (Unit {0})
  stop_run true = stop_vm "stop" true
  stop_run false = do assert_status check_running_to_stop; stop_vm "stop" false

  -- `removeVMAction.run`
  unfoldable pub remove_run : Bool → Cmd h (Unit {0})
  remove_run true = stop_vm "remove" true
  remove_run false = do assert_status check_stopped_to_remove; stop_vm "remove" false

  print_status : VmStatus → Cmd h (Unit {0})
  print_status running = call h (print "Running") (h.print_line "Running")
  print_status nonexistent = call h (print "Nonexistent") (h.print_line "Nonexistent")
  print_status stopped = call h (print "Stopped") (h.print_line "Stopped")
  print_status unknown = lift (err (message "instance state of \"finch\" is unknown"))

  -- `statusVMAction.run`
  unfoldable pub status_run : Cmd h (Unit {0})
  unfolding print_status
  status_run = do s ← status h; print_status s

  -- The credential server is started if it does not run; its error is logged.
  unfoldable pub ensure_server : Cmd h (Unit {0})
  ensure_server s =
      if h.has_executable
      then (if h.is_daemon_running s.world
          then pure tt s
          else ignore_error (call h start_server h.start_credential_server) s)
      else pure tt s

  apply_at : String → Cmd h (Unit {0})
  apply_at port = if port == "0" then pure tt else do
    ensure_server
    call h (apply_config ("127.0.0.1:" <> port)) (h.apply_nerdctl_config ("127.0.0.1:" <> port))

  port_of : Reply → Cmd h (Unit {0})
  unfolding apply_at
  port_of r = elim r.failed [ none ↦ apply_at (trim_space r.out) | some e ↦ lift (err e) ]

  -- `postVMStartInitAction.run`
  unfoldable pub post_start_run : Cmd h (Unit {0})
  unfolding port_of
  post_start_run = do
    reply ← call_limactl h ("ls" ∷ "-f" ∷ "{{.SSHLocalPort}}" ∷ lima_instance_name ∷ [])
    port_of reply

  -- `newStartVMCommand`: `PostRunE` follows where `RunE` has returned no error.
  unfoldable pub start_command : Cmd h (Unit {0})
  start_command = do start_run; post_start_run

  unfoldable pub init_command : String → Cmd h (Unit {0})
  init_command base = do init_run base; post_start_run

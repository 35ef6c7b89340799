-- ===== src/Vm/Host.antt =====
-- What the commands on the machine call: limactl, and the interfaces of the other packages.
use finch.Prelude.{String, Bool, List, none, some, Result, ok, err}
use finch.Lima.{Reply, VmStatus, get_vm_status, status_args, lima_instance_name}
use finch.Vm.Action.{Action, perform, lift, ◌>>=◌}

pub data Call : Type 0 where
  -- `CreateWithoutStdio(args...)`, run by `Output()` or `CombinedOutput()`
  limactl : List String → Call
  -- `config.LimaConfigApplier`
  default_yaml override_yaml : Call
  -- `disk.UserDataDiskManager`
  ensure_disk detach_disk : Call
  -- `dependency.InstallOptionalDeps`
  install_deps : Call
  -- package credserver
  start_server stop_server : Call
  -- `config.NerdctlConfigApplier`
  apply_config : String → Call
  -- `fmt.Fprintln(stdout, …)`
  print : String → Call

pub record Host : Type 1 where
  pub World : Type 0
  pub run_limactl : List String → World → Reply × World
  pub configure_default_lima_yaml : World → Result (Unit {0}) × World
  pub configure_override_lima_yaml : World → Result (Unit {0}) × World
  pub ensure_user_data_disk : World → Result (Unit {0}) × World
  pub detach_user_data_disk : World → Result (Unit {0}) × World
  pub install_optional_deps : World → Result (Unit {0}) × World
  -- `os.Executable()` gives no error
  pub has_executable : Bool
  pub is_daemon_running : World → Bool
  pub start_credential_server : World → Result (Unit {0}) × World
  pub stop_credential_server : World → Result (Unit {0}) × World
  pub apply_nerdctl_config : String → World → Result (Unit {0}) × World
  pub print_line : String → World → Result (Unit {0}) × World

module _ (h : Host) where
  abbrev pub Cmd : Type 0 → Type 0
  Cmd A = Action Call h.World A

  abbrev pub call_limactl : List String → Cmd Reply
  call_limactl args = perform (limactl args) (λ w. let (r, w') = h.run_limactl args w in (ok r, w'))

  abbrev failure : Reply → Result (Unit {0})
  failure r = elim r.failed [ none ↦ ok tt | some e ↦ err e ]

  -- A command of limactl of which only the error counts.
  abbrev pub check_limactl : List String → Cmd (Unit {0})
  check_limactl args s =
      let (r, w) = h.run_limactl args s.world in
      (failure r, (perform (limactl args) (λ _. (ok tt, w)) s).1)

  abbrev pub call : Call → (h.World → Result (Unit {0}) × h.World) → Cmd (Unit {0})
  call = perform

  -- `lima.GetVMStatus(creator, logger, limaInstanceName)`
  unfoldable pub status : Cmd VmStatus
  status = do
    reply ← call_limactl (status_args lima_instance_name)
    lift (get_vm_status lima_instance_name reply)

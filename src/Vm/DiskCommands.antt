-- ===== src/Vm/DiskCommands.antt =====
-- The `run` methods of `vm disk info` and `vm disk resize`.
use finch.Prelude.{String, ◌==◌, none, some, [], ◌∷◌, if◌then◌else◌, ok, err, message, wrapped}
use finch.Text.{trim_space}
use finch.Lima.{Reply, lima_instance_name}
use finch.Vm.Action.{lift, ◌>>=◌}
use finch.Vm.Host.{Host, Cmd, call_limactl}

module _ (h : Host) where
  abbrev pub disk_lines : Reply → Cmd h String
  disk_lines r = elim r.failed [
    | some e ↦ lift (err (wrapped "failed to get disk information" e))
    | none ↦
        if trim_space r.out == ""
        then lift (err (message "no disk information found for virtual machine \"finch\""))
        else lift (ok r.out)
  ]

  -- `diskInfoAction.run`, with the text that it prints
  unfoldable pub disk_info_run : Cmd h String
  unfolding trim_space ◌==◌
  disk_info_run = do r ← call_limactl h ("disk" ∷ "ls" ∷ lima_instance_name ∷ []); disk_lines r

  abbrev pub resized : Reply → Cmd h (Unit {0})
  resized r = elim r.failed [
    | some e ↦ lift (err (wrapped "failed to resize disk" e))
    | none ↦ lift (ok tt)
  ]

  -- `diskResizeVMAction.run`
  unfoldable pub disk_resize_run : String → Cmd h (Unit {0})
  disk_resize_run size = do
    r ← call_limactl h ("disk" ∷ "resize" ∷ lima_instance_name ∷ "--size" ∷ size ∷ [])
    resized r

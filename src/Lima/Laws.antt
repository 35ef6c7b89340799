-- ===== src/Lima/Laws.antt =====
-- What the state of the machine can be.
use finch.Prelude.{String, ◌≡◌, ◌≢◌, none, arith, ◌==◌, ok, true}
use finch.Text.{trim_space}
use finch.Lima.{Reply, running, unknown, to_vm_status, get_vm_status}

to_vm_status-ne-unknown : (status : String) → to_vm_status status ≢ ok unknown
unfolding to_vm_status
to_vm_status-ne-unknown status = ground arith

-- The unknown state comes with an error only, so that callers never see it alone.
pub get_vm_status-ne-unknown :
    (instance_name : String) (reply : Reply) → get_vm_status instance_name reply ≢ ok unknown
unfolding get_vm_status
get_vm_status-ne-unknown instance_name reply =
    ground (arith, to_vm_status-ne-unknown (trim_space reply.out))

-- A running machine is one that limactl listed, without an error, as running.
pub get_vm_status-running :
    (instance_name : String) (reply : Reply)
    → (get_vm_status instance_name reply ≡ ok running)
    → (reply.failed ≡ none) × ((trim_space reply.out == "Running") ≡ true)
unfolding get_vm_status to_vm_status
get_vm_status-running instance_name reply h = ground arith

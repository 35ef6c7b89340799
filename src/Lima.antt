-- ===== src/Lima.antt =====
-- pkg/lima/lima.go: the state and the kind of a virtual machine, as limactl prints them.
pub mod Laws
use finch.Prelude.{
  String, ◌<>◌, Bool, ◌||◌, Option, none, some, List, [], ◌∷◌, ◌==◌, if◌then◌else◌, Error, Result,
  ok, err, message,
}
use finch.Text.{trim_space, contains_text}

-- What `Output()` gives: what a command printed, and its error.
pub record Reply : Type 0 where
  pub out : String
  pub failed : Option Error

pub data VmStatus : Type 0 where
  running stopped nonexistent unknown : VmStatus

pub data VmType : Type 0 where
  qemu vz wsl nonexistent_type unknown_type : VmType

-- `toVMStatus`; the unknown state comes with an error.
unfoldable pub to_vm_status : String → Result VmStatus
to_vm_status status =
    if status == ""
    then ok nonexistent
    else if status == "Running"
    then ok running
    else if status == "Stopped"
    then ok stopped
    else err (message "unrecognized system status")

unfoldable pub to_vm_type : String → Result VmType
to_vm_type vm_type =
    if vm_type == ""
    then ok nonexistent_type
    else if vm_type == "qemu"
    then ok qemu
    else if vm_type == "vz"
    then ok vz
    else if vm_type == "wsl2"
    then ok wsl
    else err (message "unrecognized VMType")

abbrev pub status_args : String → List String
status_args instance_name = "ls" ∷ "-f" ∷ "{{.Status}}" ∷ instance_name ∷ []

abbrev pub type_args : String → List String
type_args instance_name = "ls" ∷ "-f" ∷ "{{.VMType}}" ∷ instance_name ∷ []

-- The text by which limactl says that it knows no such instance.
no_instance : String → String → Bool
no_instance instance_name out =
    trim_space out == ""
    || contains_text (trim_space out) ("No instance matching " <> (instance_name <> " found"))

-- `GetVMStatus`, from the reply to `limactl ls`.
unfoldable pub get_vm_status : String → Reply → Result VmStatus
unfolding no_instance
get_vm_status instance_name reply = elim reply.failed [
  | none ↦ to_vm_status (trim_space reply.out)
  | some e ↦ if no_instance instance_name reply.out then ok nonexistent else err e
]

-- `GetVMType`
unfoldable pub get_vm_type : Reply → Result VmType
get_vm_type reply = elim reply.failed [ none ↦ to_vm_type (trim_space reply.out) | some e ↦ err e ]

abbrev pub lima_instance_name : String
lima_instance_name = "finch"

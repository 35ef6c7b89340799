-- ===== src/Vm.antt =====
-- cmd/finch/virtual_machine*.go: the commands on the virtual machine, in the build for macOS.
pub mod Action
pub mod Host
pub mod Commands
pub mod DiskCommands
pub mod Settings

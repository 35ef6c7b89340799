-- ===== src/Tests.antt =====
-- Runs of the program's own examples, and the theorems at concrete states.
mod Nerdctl
mod Scan
mod Vm
mod Dependency
mod Disk
mod Codec
mod Config
mod Credserver
mod Support
mod Guest
mod CredHelper
mod Lookup
mod Vmnet
mod Windows
mod Linux
mod Command
mod DataDisk
mod Version
mod Login
mod Inspect

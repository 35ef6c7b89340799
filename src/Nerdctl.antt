-- ===== src/Nerdctl.antt =====
-- cmd/finch/nerdctl_remote.go, nerdctl.go and nerdctl_darwin.go: how a finch command line becomes
-- the command line of nerdctl inside the virtual machine, in the build for macOS.
pub mod Deps
pub mod Flags
pub mod Values
pub mod EnvFile
pub mod Handlers
pub mod Scan
pub mod Envs
pub mod Inspect
pub mod Run

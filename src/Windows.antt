-- ===== src/Windows.antt =====
-- cmd/finch/nerdctl_windows.go: what the Windows build does to a command line, where the paths of
-- the host stand for other paths inside WSL.
pub mod Paths
pub mod Names
pub mod Convert
pub mod Handlers
pub mod Volumes
pub mod Commands
pub mod HostPaths
pub mod Copy
pub mod Build
pub mod Options
pub mod Run
pub mod DataDisk

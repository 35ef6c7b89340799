-- ===== src/Lib.antt =====
-- A model of finch, the command line for containers on macOS, and the theorems about it.
--
-- finch runs nerdctl inside a virtual machine that Lima keeps. Its program has three parts. The
-- commands of nerdctl are rewritten and run in the machine (cmd/finch/nerdctl*.go); the commands
-- `finch vm …` bring the machine up and down (cmd/finch/virtual_machine*.go); and a configuration
-- says what machine to make (pkg/config). The first two ask limactl for the machine's state
-- (pkg/lima/lima.go) before they do anything; the second writes Lima's files, through the third,
-- before it starts the machine. The model is of the macOS build, and of the commands of nerdctl in
-- the Windows and Linux builds, with the disk of the Windows build.
--
-- Prelude and Text hold Go's slices, maps, errors and strings. `Result` has Go's `(value, error)`
-- and a third outcome for a run-time panic. Texts are sequences of bytes, of which `characters`
-- makes the characters of UTF-8.
-- The module Lima has `GetVMStatus`, `GetVMType` of pkg/lima/lima.go, from the reply of limactl.
-- The modules under Nerdctl have `nerdctlCommand.run` of cmd/finch/nerdctl_remote.go. Deps holds
-- the environment, the files, limactl, and the ordered map, whose documented order is the
-- hypothesis `IsOrdered`. Flags has the switch over one argument, Values `handleFlagArg`,
-- `handleEnv` and `isNumericArg`, EnvFile `handleEnvFile`, Handlers the handlers of
-- cmd/finch/nerdctl.go, Scan the loop, Envs the environment, Inspect what is printed of
-- containers, and Run the whole. The loop writes to `args[i]` and `args[i+1]` while it runs;
-- `loop` carries what was written to the next round, and `seen` collects what the slice holds at
-- the end. The loops are structural recursions on the arguments, so that no fuel is needed.
-- The modules under Vm have `run` of the commands for the machine, with `vm settings` and `vm
-- disk`. Host holds what they call, with the world that the calls change; an action keeps a list
-- of the calls that it has made, so that orders can be stated. Vm/Commands/Order has the orders,
-- Vm/Commands/Machine the life of a machine, which Refine has the commands follow, over a limactl
-- that does what it documents (`IsLima`).
-- The modules under Config have pkg/config for macOS. Types has the structs, where a pointer is an
-- `Option`; System what comes from the machine; Defaults, Validate and Files the functions of
-- defaults_darwin.go, validate_darwin.go, config.go and config_darwin.go, over a file system and a
-- YAML codec (`Store`) whose read-back is the hypothesis `IsStore`; LimaYaml the files for Lima.
-- The modules under Disk have `EnsureUserDataDisk` of pkg/disk/disk_darwin.go, which `vm init` and
-- `vm start` call, over a file system; what the theorems take from it are the hypotheses
-- `IsLinking` and `IsKeeping`.
-- Dependency has pkg/dependency/dependency.go, the optional dependencies that `vm init` and `vm
-- start` install; Dependency/CredHelper the one of them that fetches a credential helper
-- (pkg/dependency/credhelper), and Dependency/Vmnet those for the network (pkg/dependency/vmnet),
-- as an instance of the interface that Dependency asks for.
-- The modules under Credserver have pkg/credserver/process_darwin.go, which starts and stops the
-- daemon for credentials, over a system of processes and files; a run keeps a list of the signals
-- and pauses. Its loop of twenty rounds is a recursion on the number of rounds. Lookup and Serve
-- have utils_darwin.go and the handler of cmd/credserver/main.go, which answer for a registry;
-- Client has cmd/finchhost-credential-helper/main.go, which asks from inside the machine, its HTTP
-- client a parameter. Sources says which helper a configuration names, and what is known of a
-- registry.
-- The modules under Support have pkg/support/support.go and redact.go, with the command of
-- cmd/finch/support_bundle.go: the bundle that a user attaches to a report. Go's regular
-- expressions are a parameter; Support/Elided lists what is replaced, and Support/Allowed says
-- what a bundle may hold.
-- The modules under Config/Guest have pkg/config/nerdctl_config_applier.go, which edits .bashrc
-- and nerdctl.toml inside the machine.
-- Text/Decimal has Go's `ParseInt` and `Itoa`; the digits are written with a fuel of n + 1, which
-- is more than there are digits.
-- The modules under Windows have cmd/finch/nerdctl_windows.go, with `run` in that build; its
-- parser is that of Nerdctl, since Run finds the handlers in tables that a platform gives. The
-- paths of Windows that theorems speak of are a drive and a list of proper names (Windows/Names).
-- Windows/DataDisk has pkg/disk/disk_windows.go; the loop that copies the disk has as many rounds
-- as its bytes need, and a run that has used them up is no success.
-- Linux has cmd/finch/nerdctl_native.go, with the handlers and the choice of the command that
-- Nerdctl has; an alias gives the handlers only, and the command keeps its name.
-- The modules under Command have pkg/command: the environment that limactl or nerdctl gets.
-- Version has cmd/finch/version.go and version_remote.go, over a template library and a standard
-- output.
-- Login has cmd/finch/login_local.go and logout_local.go, over the library of nerdctl.
-- The modules under Tests have runs of whole command lines, and each theorem at a concrete state.
--
-- Numbers in the configuration are unbounded; the parser of versions has the bounds of an int64.
-- Memory and processors are halved as natural numbers, exact below 2 ^ 53.
--
-- Not modelled: of the Linux and Windows builds all but what is named above; the socket of the
-- credential server; logging and the parsing of flags of `finch vm`, which cobra does; regular
-- expressions, Docker's option parser and limactl, which are not part of the repository.
mod Prelude
mod Tests
pub mod Text
pub mod Lima
pub mod Linux
pub mod Login
pub mod Version
pub mod Vm
pub mod Windows
pub mod Config
pub mod Disk
pub mod Dependency
pub mod Command
pub mod Credserver
pub mod Support
pub mod Nerdctl

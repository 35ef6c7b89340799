-- ===== src/Support.antt =====
-- Package support: the bundle of logs and configurations for a report.
pub mod Redact
pub mod Elided
pub mod Exclude
pub mod Bundle
pub mod Generate
pub mod Entries
pub mod CopyOf
pub mod Copies
pub mod Allowed
pub mod Contents
pub mod BaseNames
pub mod Command
use finch.Prelude.{String, List, Option, Error, Result}
use finch.Prelude.Act.{Act}

-- What is read from a file: its text up to a read error, if there is one.
pub record Reader : Type 0 where
  pub text : String
  pub failed : Option Error

-- A command that was started: what it prints, what it prints as errors, and what `Wait` gives.
pub record Stream : Type 0 where
  pub out : String
  pub stderr : String
  pub waited : Option Error

-- `PlatformData`
pub record PlatformData : Type 0 where
  pub os : String
  pub arch : String
  pub finch : String

-- `BundleCfg`, with `LogLines` as its decimal text
pub record BundleCfg : Type 0 where
  pub additional_files : List String
  pub exclude_files : List String
  pub log_lines : String

-- What the builder gets from outside: the system, the machine, and Go's `regexp` and `yaml`.
pub record BundleHost : Type 1 where
  pub World : Type 0
  -- `runtime.GOOS`
  pub goos : String
  -- `time.Now().Format("20060102150405")`
  pub now : String
  -- `system.NewStdLib().Arch()`
  pub machine_arch : String
  -- `version.Version`
  pub version : String
  -- `systemDeps.Executable()`
  pub executable : Result String
  -- `os.Getwd()`
  pub working_dir : Result String
  -- `lima.LimaUser(false).Username`
  pub lima_user : String
  -- `finch.LimaInstancePath()`
  pub lima_instance_path : String
  -- `finch.ConfigFilePath(rootDir)`
  pub config_file_path : String
  -- `string(finch)`
  pub finch_path : String
  -- `fs.Create(name)`
  pub create_file : String → Act World (Unit {0})
  -- a write by `zip.Writer` to the file below it, and its `Close()`
  pub zip_write : Act World (Unit {0})
  pub zip_close : Act World (Unit {0})
  -- `fs.Open(name)`
  pub open_file : String → World → Result Reader
  -- `ecc.Create(args...).Output()`
  pub output : List String → World → Result String
  -- `ncc.CreateWithoutStdio(args...).Start()`
  pub start_in_vm : List String → World → Result Stream
  -- `yaml.Marshal(&platform)`
  pub marshal : PlatformData → Result String
  -- `regexp.Compile(pattern)` and `ReplaceAll(content, replacement)`
  pub replace_all : String → String → String → Result String

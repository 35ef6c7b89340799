-- ===== src/Version.antt =====
-- cmd/finch/version.go and version_remote.go: `finch version`.
pub mod Shown
use finch.Prelude.{
  String, ◌<>◌, ◌==◌, Bool, true, false, Option, none, some, List, [], ◌∷◌, if◌then◌else◌, Error,
  message, context, Result, ok, err, panicked, ◌>>=◌, ◌>>◌,
}
use finch.Prelude.Act.{Act}
use finch.Text.{join}
use finch.Lima.{Reply, VmStatus, running, get_vm_status, status_args, lima_instance_name}

-- `NerdctlComponentsOutput`
pub record Component : Type 0 where
  pub name : String
  pub version : String
  pub git_commit : String

-- `NerdctlClientOutput`
pub record NerdctlClient : Type 0 where
  pub version : String
  pub git_commit : String
  pub go_version : String
  pub os : String
  pub arch : String
  pub components : List Component

-- `NerdctlServerOutput`
pub record NerdctlServer : Type 0 where
  pub components : List Component

-- `NerdctlVersionOutput`
pub record NerdctlVersion : Type 0 where
  pub client : NerdctlClient
  pub server : NerdctlServer

-- `ClientVersionOutput`
pub record FinchClient : Type 0 where
  pub version : String
  pub git_commit : String
  pub nerdctl_client : NerdctlClient

-- `FinchVersionOutput`
pub record FinchVersion : Type 0 where
  pub client : FinchClient
  pub server : NerdctlServer

-- The build's version, limactl, the libraries for JSON and for templates, and the standard output.
pub record VersionHost : Type 1 where
  pub World : Type 0
  pub version : String
  pub git_commit : String
  pub limactl : List String → Reply
  pub decode : String → Result NerdctlVersion
  pub Template : Type 0
  -- `templates.New("version").Parse`
  pub parse_template : String → Result Template
  pub execute : Template → FinchVersion → Result String
  pub print : String → Act World (Unit {0})

-- `defaultVersionTemplate`
abbrev pub default_version_template : String
default_version_template = join "\n" (
    "{{with .Client -}}" ∷ "Client:" ∷ " Version:\t{{.Version}}" ∷ " GitCommit:\t{{.GitCommit}}"
    ∷ " {{with .NerdctlClient -}}" ∷ " OS/Arch:\t{{.Os}}/{{.Arch}}" ∷ " nerdctl:"
    ∷ "  Version:\t{{.Version}}" ∷ "  GitCommit:\t{{.GitCommit}}"
    ∷ " {{- range $component := .Components}}" ∷ " {{$component.Name}}:"
    ∷ "  Version:\t{{.Version}}" ∷ "  GitCommit:\t{{.Details.GitCommit}}" ∷ " {{- end}}"
    ∷ " {{- end}}" ∷ "{{- end}}" ∷ "" ∷ "{{with .Server -}}" ∷ "Server:"
    ∷ "{{- range $component := .Components}}" ∷ " {{$component.Name}}:" ∷ "  Version:\t{{.Version}}"
    ∷ "  GitCommit:\t{{.Details.GitCommit}}" ∷ "{{- end}}" ∷ "{{- end}}" ∷ [])

-- What `Output()` gives.
abbrev pub output_of : Reply → Option Error → Result String
output_of r none = ok r.out
output_of r (some e) = err e

abbrev pub check_running : VmStatus → Result (Unit {0})
check_running running = ok tt
check_running _ = err (message "detailed version info is unavailable because VM is not running")

abbrev pub nerdctl_version_args : List String
nerdctl_version_args =
    "shell" ∷ lima_instance_name ∷ "sudo" ∷ "-E" ∷ "nerdctl" ∷ "version" ∷ "--format" ∷ "json" ∷ []

-- What `run` returns: nothing, an error, or that error joined with the one of the last print.
pub data Outcome : Type 0 where
  shown : Outcome
  failed : Error → Outcome
  failed_twice : Error → Error → Outcome
  faulted : Outcome

module _ (h : VersionHost) where
  -- `newVersionTemplate`
  unfoldable pub new_version_template : String → Result h.Template
  unfolding ◌==◌
  new_version_template format = h.parse_template (
      if format == ""
      then default_version_template
      else if format == "json"
      then "{{json .}}"
      else format)

  -- `createFinchVersionOutput`
  unfoldable pub create_finch_version_output : NerdctlVersion → FinchVersion
  create_finch_version_output v = record {
    client = record { version = h.version; git_commit = h.git_commit; nerdctl_client = v.client };
    server = v.server;
  }

  -- `printVersion` up to the print: the text.
  unfoldable pub version_text : String → Result String
  unfolding get_vm_status new_version_template create_finch_version_output
  version_text format = do
    status ←
        context "failed to get VM status"
          (get_vm_status lima_instance_name (h.limactl (status_args lima_instance_name)))
    check_running status
    let reply = h.limactl nerdctl_version_args
    out ← context "failed to create the nerdctl version command" (output_of reply reply.failed)
    v ← context "failed to JSON-unmarshal the nerdctl version output" (h.decode out)
    tmpl ← new_version_template format
    h.execute tmpl (create_finch_version_output v)

  abbrev pub print_text : Result String → Act h.World (Unit {0})
  print_text (ok text) w = h.print (text <> "\n") w
  print_text (err e) w = (err e, w)
  print_text panicked w = (panicked, w)

  -- `printVersion`
  unfoldable pub print_version : String → Act h.World (Unit {0})
  unfolding version_text
  print_version format = print_text (version_text format)

  abbrev pub version_line : String
  version_line = "Finch version:\t" <> (h.version <> "\n")

  abbrev pub joined : Error → Result (Unit {0}) → Outcome
  joined e (ok u) = failed e
  joined e (err e') = failed_twice e e'
  joined e panicked = faulted

  abbrev pub or_version_line : Result (Unit {0}) × h.World → Outcome × h.World
  or_version_line (ok u, w) = (shown, w)
  or_version_line (err e, w) = let (r, w') = h.print version_line w in (joined e r, w')
  or_version_line (panicked, w) = (faulted, w)

  -- `run`
  unfoldable pub run_version : String → h.World → Outcome × h.World
  unfolding print_version
  run_version format w = or_version_line (print_version format w)

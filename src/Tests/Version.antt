-- ===== src/Tests/Version.antt =====
-- `finch version` on a running machine and on one that is stopped.
use finch.Prelude.{String, ◌<>◌, ◌==◌, none, List, [], ◌∷◌, ◌++◌, ◌≡◌, ◌⊎◌, refl, message, ok}
use finch.Lima.{get_vm_status, to_vm_status}
use finch.Text.{trim_space}
use finch.Version.{VersionHost, NerdctlVersion, shown, failed, version_text, run_version}
use finch.Version.Shown.{IsPrinting, Shows, Fails, run_version_lem}

abbrev reported : NerdctlVersion
reported = record {
  client = record {
    version = "v2.0";
    git_commit = "abc";
    go_version = "go1.22";
    os = "linux";
    arch = "arm64";
    components = [];
  };
  server = record { components = [] };
}

-- A machine with the status `status`, and a template that shows two versions.
abbrev host : String → VersionHost
host status = record {
  World = List String;
  version = "1.4";
  git_commit = "def";
  limactl = λ args. record { out = status <> "\n"; failed = none };
  decode = λ s. ok reported;
  Template = String;
  parse_template = ok;
  execute = λ t v. ok (t <> (v.client.version <> (" " <> v.client.nerdctl_client.version)));
  print = λ s w. (ok tt, w ++ s ∷ []);
}

printing : (status : String) → IsPrinting (host status) (λ w. w)
printing status = record { print_ok = λ s w. refl; print_adds = λ s w. refl }

version_running : run_version (host "Running") "V " [] ≡ (shown, "V 1.4 v2.0\n" ∷ [])
unfolding run_version get_vm_status to_vm_status trim_space ◌==◌
version_running = refl

version_stopped : run_version (host "Stopped") "V " [] ≡ (
  failed (message "detailed version info is unavailable because VM is not running"),
  "Finch version:\t1.4\n" ∷ [],
)
unfolding run_version get_vm_status to_vm_status trim_space ◌==◌
version_stopped = refl

run_version_example :
    let a = run_version (host "Running") "V " [] in
    Shows (host "Running") (λ w. w) "V " [] a ⊎ Fails (host "Running") (λ w. w) "V " [] a
unfolding version_text get_vm_status to_vm_status trim_space ◌==◌
run_version_example =
    run_version_lem (host "Running") (λ w. w) (printing "Running") "V " [] (λ h. cc)

-- ===== src/Tests/Support.antt =====
-- The theorems on the support bundle, with one log that is excluded and one service that fails.
use finch.Prelude.{[], ◌∷◌, ◌≡◌, ◌⊎◌, ◌==◌, refl, none, length, ok, err, message}
use finch.Text.{has_prefix, trim_space}
use finch.Text.FilePath.{join_path, base}
use finch.Support.{BundleHost, BundleCfg}
use finch.Support.Exclude.{excluded_by_any, excluded_by, absolute, real_filename_of}
use finch.Support.Generate.{generate_support_bundle}
use finch.Support.Entries.{AllEntries}
use finch.Support.Allowed.{IsAllowed}
use finch.Support.Command.{
  BundleFlags, bundle_cfg, can_create_bundle, generate_action, MayGenerate,
  generate_action-IsAllowed,
}
use finch.Lima.{Reply, get_vm_status, to_vm_status}
use finch.Prelude.Int.{pos, negsuc}
use finch.Text.Decimal.{itoa}

abbrev host : BundleHost
host = record {
  World = Unit;
  goos = "darwin";
  now = "20240102150405";
  machine_arch = "arm64";
  version = "v1.0.0";
  executable = ok "/finch/bin/finch";
  working_dir = ok "/home";
  lima_user = "me";
  lima_instance_path = "/lima";
  config_file_path = "/finch.yaml";
  finch_path = "/finch";
  create_file = λ name w. (ok tt, w);
  zip_write = λ w. (ok tt, w);
  zip_close = λ w. (ok tt, w);
  open_file = λ name w. ok (record { text = "a\nb"; failed = none });
  output = λ args w. ok "14.5\n";
  start_in_vm = λ args w. err (message "no machine");
  marshal = λ p. ok "os: 14.5";
  replace_all = λ pattern replacement content. ok content;
}

abbrev cfg : BundleCfg
cfg = record {
  additional_files = "notes.txt" ∷ [];
  exclude_files = "serial.log" ∷ [];
  log_lines = "500";
}

abbrev flags : BundleFlags
flags = record { includes = "notes.txt" ∷ []; excludes = "serial.log" ∷ []; num_lines = pos 500 }

abbrev reply : Reply
reply = record { out = "Stopped\n"; failed = none }

generate_action-IsAllowed_example :
    let b = (generate_action host flags reply tt).1 in
    AllEntries (IsAllowed host (bundle_cfg flags)) b.entries
    × (b.entries ≡ [] ⊎ MayGenerate flags reply)
generate_action-IsAllowed_example = generate_action-IsAllowed host flags reply tt

negative_lines :
    (generate_action host (record flags { num_lines = negsuc 4 }) reply tt).0
    ≡ err (message "num-lines cannot be less than zero (provided value: -5)")
unfolding generate_action itoa
negative_lines = refl

nothing_without_machine :
    (generate_action host flags (record { out = ""; failed = none }) tt).1.entries ≡ []
unfolding generate_action can_create_bundle get_vm_status to_vm_status trim_space ◌==◌
nothing_without_machine = refl

-- Three entries of every bundle, two logs, two configurations and the additional file.
bundle_entries : length (generate_support_bundle host cfg tt).1.entries ≡ 8
unfolding generate_support_bundle absolute has_prefix real_filename_of join_path excluded_by_any
    excluded_by base
bundle_entries = refl

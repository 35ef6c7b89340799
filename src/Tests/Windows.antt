-- ===== src/Tests/Windows.antt =====
-- The theorems on the Windows build, over a file system whose working directory is C:\work.
use text.Mathlib.TextLemmas.{cons-append}
use mathlib.Core.List.{Memᴰ}
use finch.Prelude.{
  String, ◌<>◌, ◌==◌, true, false, some, List, [], ◌∷◌, ◌≡◌, refl, if◌then◌else◌, ok, err, panicked,
  ◌↔◌, contains, message, arith,
}
use finch.Text.{join, len, has_prefix, slice_from, has_char, split, slice_to, trim_space}
use finch.Text.Case.{to_lower, to_upper}
use finch.Lima.{get_vm_status, to_vm_status}
use finch.Nerdctl.Handlers.{Command}
use finch.Nerdctl.Run.{run_command, should_replace_for_help}
use finch.Nerdctl.Run.Laws.{without_debug}
use finch.Windows.Paths.{WinDeps, wsl_path, convert_to_wsl_path, get_cmd_args}
use finch.Windows.Convert.{windows_of, windows_of-convert_to_wsl_path}
use finch.Windows.Handlers.{handle_output_option, handle_secret_option}
use finch.Windows.Commands.{is_no_host_path, cp_handler, image_build_handler}
use finch.Windows.HostPaths.{Stays, Stays-is_no_host_path}
use finch.Windows.Copy.{Copied, done, kept, converted, cp_handler_iff}
use finch.Windows.Build.{Converts, NoDirectory, image_build_handler-panicked_iff}
use finch.Windows.Options.{handle_options-bare}
use finch.Windows.Run.{AwsDeps, passed_env_args, run}
use finch.Windows.Run.Copies.{run-cp}
use finch.Tests.Nerdctl.{deps}
use finch.Windows.Names.{is_name, AllNames, IsWindows}

abbrev absolute : String → String
absolute path = if has_prefix (slice_from 1 path) ":" then path else "C:\\work\\" <> path

abbrev keep : String → List String → List String
keep String.[] ps = ps
keep (String.◌∷◌ c s) ps = String.◌∷◌ c s ∷ ps

abbrev non_empty : List String → List String
non_empty [] = []
non_empty (p ∷ ps) = keep p (non_empty ps)

abbrev join_parts : List String → String
join_parts [] = ""
join_parts (p ∷ ps) = p <> join "\\" (non_empty ps)

abbrev host : WinDeps
host = record {
  get_wd = ok "C:\\work";
  file_path_clean = λ path. path;
  file_path_abs = λ path. ok (absolute path);
  file_path_join = join_parts;
}

keep-name : (c : String) (ps : List String) → is_name c ≡ true → keep c ps ≡ c ∷ ps
unfolding is_name ◌==◌
keep-name String.[] ps h = cc
keep-name (String.◌∷◌ c s) ps h = refl

keep-join :
    (c : String) (cs : List String)
    → is_name c ≡ true
    → keep (join "\\" (c ∷ cs)) [] ≡ join "\\" (c ∷ cs) ∷ []
unfolding is_name ◌==◌ join
keep-join String.[] cs h = cc
keep-join (String.◌∷◌ c s) [] h = refl
keep-join (String.◌∷◌ c s) (d ∷ cs) h = rw (cons-append c s ("\\" <> join "\\" (d ∷ cs))) refl

join-names :
    (a b : String) (cs : List String)
    → AllNames (a ∷ (b ∷ cs))
    → join_parts ("\\" ∷ a ∷ b ∷ join "\\" cs ∷ []) ≡ "\\" <> join "\\" (a ∷ (b ∷ cs))
unfolding join
join-names a b [] (p, (q, u)) = rw (keep-name b [] q, keep-name a (b ∷ []) p) refl
join-names a b (c ∷ cs) (p, (q, (r, u))) =
    rw
      (
        keep-join c cs r,
        keep-name b (join "\\" (c ∷ cs) ∷ []) q,
        keep-name a (b ∷ (join "\\" (c ∷ cs) ∷ [])) p,
      )
      refl

host-IsWindows : IsWindows host
unfolding has_prefix slice_from
host-IsWindows = record { abs-drive_path = λ d cs u p. refl; join-names = join-names }

-- C:\src\app, as a user writes it.
abbrev app : List String
app = "src" ∷ "app" ∷ []

windows_of-convert_to_wsl_path_example :
    (path : String) × (convert_to_wsl_path host "C:\\src\\app" ≡ ok path)
    × (path ≡ "/mnt/c/src/app")
    × (windows_of path ≡ "C:\\src\\app")
unfolding join is_name has_char ◌==◌ to_lower to_upper
windows_of-convert_to_wsl_path_example =
    windows_of-convert_to_wsl_path host host-IsWindows "C" app (refl, (refl, tt)) refl refl refl

abbrev cp_command : List String → Command
cp_command args = record { name = "container cp"; args = args; inspect_type = "" }

cp_handler_iff_example :
    (cp_handler host false (cp_command ("-L" ∷ "box:/etc" ∷ "C:\\src" ∷ []))
      ≡ ok (cp_command ("-L" ∷ "box:/etc" ∷ "/mnt/c/src" ∷ [])))
    ↔ Copied host ("-L" ∷ "box:/etc" ∷ "C:\\src" ∷ []) ("-L" ∷ "box:/etc" ∷ "/mnt/c/src" ∷ [])
cp_handler_iff_example =
    cp_handler_iff host false (cp_command ("-L" ∷ "box:/etc" ∷ "C:\\src" ∷ []))
      ("-L" ∷ "box:/etc" ∷ "/mnt/c/src" ∷ [])

host-Converts : Converts host
unfolding convert_to_wsl_path
host-Converts path e = cc

image_build_handler-panicked_iff_example :
    (image_build_handler host false (cp_command []) ≡ panicked) ↔ NoDirectory []
image_build_handler-panicked_iff_example =
    image_build_handler-panicked_iff host host-Converts false (cp_command [])

handle_options-bare_example :
    (handle_output_option host (λ m. m) false "-o" (some "out") ≡ panicked)
    × (handle_secret_option host (λ m. m) false "-o" (some "out") ≡ panicked)
unfolding has_char split
handle_options-bare_example =
    handle_options-bare host (λ m. m) false "-o" "out" "out" refl (Memᴰ.head refl) refl

abbrev aws : AwsDeps
aws = record {
  creds_helpers = "ecr-login" ∷ [];
  export_credentials = ok "{}";
  decode = λ text. err (message "no credentials");
}

box-Stays : Stays "box:/etc"
unfolding has_char len
box-Stays = Stays.in_container "box" "/etc" refl refl (omega arith)

src_moves : ¬ Stays "C:\\src"
unfolding is_no_host_path has_prefix ◌==◌
src_moves s = cc (Stays-is_no_host_path "C:\\src" s)

run-cp_example :
    run deps host aws "cp" ("box:/etc" ∷ "C:\\src" ∷ [])
    ≡ ok (
      run_command (
          "shell" ∷ "--workdir" ∷ "/mnt/c/work" ∷ "finch" ∷ "sudo" ∷ "-E" ∷ "nerdctl" ∷ "container"
          ∷ "cp" ∷ "box:/etc" ∷ "/mnt/c/src" ∷ []),
      false,
    )
unfolding get_vm_status to_vm_status ◌==◌ trim_space passed_env_args get_cmd_args
    convert_to_wsl_path wsl_path has_prefix slice_from slice_to to_lower join is_no_host_path
    contains should_replace_for_help without_debug
run-cp_example =
    run-cp deps host aws ("box:/etc" ∷ "C:\\src" ∷ []) ("box:/etc" ∷ "/mnt/c/src" ∷ []) []
      ("shell" ∷ "--workdir" ∷ "/mnt/c/work" ∷ "finch" ∷ "sudo" ∷ "-E" ∷ []) refl
      (kept box-Stays (converted src_moves refl done)) refl refl

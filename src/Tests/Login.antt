-- ===== src/Tests/Login.antt =====
-- `finch login` with the password of the flag, and with one that is read.
use finch.Prelude.{
  String, ◌<>◌, ◌==◌, true, none, List, [], ◌∷◌, ◌≡◌, refl, ok, err, message, not_exist,
}
use finch.Text.{has_char}
use finch.Text.FilePath.{join_path}
use finch.Credserver.Lookup.{LookupHost, ensure_config_exists, is_osx_keychain_usable}
use finch.Login.{
  LoginFlags, LoginHost, login_action, logout_action, login_options, without_line_end,
}
use finch.Login.Sent.{Sent, login_action-Sent}

-- The world is what was done, the last first.
abbrev host : LookupHost
host = record {
  World = List String;
  home_dir = ok "/Users/me";
  environ = [];
  open_config = λ path. ok "{}";
  load_from_reader = λ text. err (message "unread");
  look_path = λ name. err (message "executable file not found in $PATH");
  run_helper = λ path args env input. err (message "exit status 1");
  decode = λ output. err (message "unexpected end of JSON input");
  encode_config = λ cfg. ok "{}";
  mkdir_all = λ path w. (ok tt, w);
  stat = λ path w. err not_exist;
  write_file = λ path text w. (ok tt, ("wrote " <> path) ∷ w);
}

abbrev streams : LoginHost host
streams = record {
  read_stdin = λ w. (ok "secret\n", w);
  log = λ s w. s ∷ w;
  open_pipe = λ w. (ok tt, w);
  read_pipe = λ r w. (ok r.stderr, w);
  print = λ s w. s ∷ w;
  print_error = λ s w. s ∷ w;
  login = λ o w. (
    record { result = ok tt; out = "Login Succeeded\n"; stderr = "" },
    (o.username <> (":" <> (o.password <> ("@" <> o.server_address)))) ∷ w,
  );
  logout = λ s w. (record { err_group = none; result = ok tt }, ("out of " <> s) ∷ w);
}

abbrev flags : LoginFlags
flags = record { namespace = ""; username = "me"; password = ""; password_stdin = true }

abbrev after : List String
after = "Login Succeeded\n" ∷ "me:secret@reg.io" ∷ "wrote /Users/me/.finch/config.json" ∷ []

login_stdin : login_action host streams flags ("reg.io" ∷ []) [] ≡ (ok tt, after)
unfolding login_action login_options ensure_config_exists is_osx_keychain_usable join_path has_char
    without_line_end ◌==◌
login_stdin = refl

login_two_passwords : login_action host streams (record flags { password = "pw" }) [] [] ≡ (
  err (message "--password and --password-stdin are mutually exclusive"),
  "WARNING! Using --password via the CLI is insecure. Use --password-stdin."
      ∷ "wrote /Users/me/.finch/config.json" ∷ [],
)
unfolding login_action login_options ensure_config_exists is_osx_keychain_usable join_path has_char
    ◌==◌
login_two_passwords = refl

logout_once :
    logout_action host streams ("reg.io" ∷ []) []
    ≡ (ok tt, "out of reg.io" ∷ "wrote /Users/me/.finch/config.json" ∷ [])
unfolding logout_action ensure_config_exists is_osx_keychain_usable join_path
logout_once = refl

login_action-Sent_example : Sent host streams flags ("reg.io" ∷ []) [] after
unfolding login_action login_options ensure_config_exists is_osx_keychain_usable join_path has_char
    without_line_end ◌==◌
login_action-Sent_example = login_action-Sent host streams flags ("reg.io" ∷ []) [] after refl

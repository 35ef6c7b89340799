-- ===== src/Tests/Lookup.antt =====
-- The theorems on the credentials that are served: an entry in plain text and no helper, and a
-- variable that comes through the headers.
use finch.Prelude.{
  String, ◌<>◌, none, some, [], ◌∷◌, ◌≡◌, refl, ◌==◌, lookup, insert, contains, if◌then◌else◌,
  Result, ok, err, message, not_exist,
}
use finch.Text.{has_prefix, trim_prefix, replace_byte}
use finch.Text.Case.{to_upper}
use finch.Credserver.Lookup.{
  LookupHost, Credentials, get_credentials, load_config, get_cred_helper_path,
  read_credentials_from_config,
}
use finch.Credserver.Serve.{Request, handle_credentials, env_map}
use finch.Credserver.Client.{headers_of, credential_envs}
use finch.Credserver.Variables.{lookup-env_map_of_headers}
use finch.Credserver.Sources.{IsKnown}
use finch.Credserver.Known.{handle_credentials-IsKnown}

abbrev host : LookupHost
host = record {
  World = Unit;
  home_dir = ok "/Users/me";
  environ = "HOME=/Users/me" ∷ [];
  open_config = λ path. ok "{}";
  load_from_reader = λ text. ok (record {
    credential_helpers = none;
    credentials_store = "osxkeychain";
    auth_configs = some (("reg.io", record { username = "me"; password = "pw" }) ∷ []);
  });
  look_path = λ name. err (message "executable file not found in $PATH");
  run_helper = λ path args env input. err (message "exit status 1");
  decode = λ output. err (message "unexpected end of JSON input");
  encode_config = λ cfg. ok "{}";
  mkdir_all = λ path w. (ok tt, w);
  stat = λ path w. err not_exist;
  write_file = λ path text w. (ok tt, w);
}

abbrev encode : Credentials → Result String
encode c = ok (c.server_url <> (" " <> (c.username <> (" " <> c.secret))))

abbrev request : Request
request = record {
  method = "GET";
  server = "reg.io";
  headers = ("X-Finch-Env-Aws-Profile", "dev" ∷ []) ∷ [];
}

-- The name of a variable is restored from the header.
env_of_header : env_map [] request.headers ≡ (("AWS_PROFILE", "dev") ∷ [])
unfolding env_map insert has_prefix to_upper replace_byte trim_prefix
env_of_header = refl

handle_credentials-IsKnown_example :
    (c : Credentials) × (encode c ≡ ok "reg.io me pw")
    × IsKnown host request.server (env_map [] request.headers) c
unfolding handle_credentials get_credentials load_config get_cred_helper_path
    read_credentials_from_config lookup ◌==◌
handle_credentials-IsKnown_example =
    handle_credentials-IsKnown host encode request (record { status = 200; body = "reg.io me pw" })
      refl refl

-- The environment inside the machine.
abbrev guest_env : String → String
guest_env k = if k == "AWS_PROFILE" then "dev" else ""

lookup-env_map_of_headers_example :
    lookup "AWS_PROFILE" (env_map [] (headers_of guest_env credential_envs)) ≡ some "dev"
unfolding contains ◌==◌
lookup-env_map_of_headers_example = lookup-env_map_of_headers guest_env "AWS_PROFILE"

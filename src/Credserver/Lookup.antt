-- ===== src/Credserver/Lookup.antt =====
-- pkg/credserver/utils_darwin.go: the credentials for a registry, from a helper or from the
-- configuration of docker in finch's directory.
use finch.Prelude.{
  String, ◌<>◌, Bool, true, false, not, ◌==◌, Option, none, some, List, [], ◌∷◌, ◌++◌, map, lookup,
  if◌then◌else◌, is_not_exist, Result, ok, err, panicked, context, ◌>>=◌,
}
use finch.Prelude.Act.{Act, described, ◌>>◌}
use finch.Text.FilePath.{join_path}

-- `credentials.Credentials`
pub record Credentials : Type 0 where
  pub server_url : String
  pub username : String
  pub secret : String

pub record AuthConfig : Type 0 where
  pub username : String
  pub password : String

-- What the program reads of `configfile.ConfigFile`; a map may be nil.
pub record ConfigFile : Type 0 where
  pub credential_helpers : Option (List (String × String))
  pub credentials_store : String
  pub auth_configs : Option (List (String × AuthConfig))

abbrev pub empty_config_file : ConfigFile
empty_config_file = record {
  credential_helpers = none;
  credentials_store = "";
  auth_configs = none;
}

-- The system, and Docker's library for the configuration.
pub record LookupHost : Type 1 where
  pub World : Type 0
  -- `os.UserHomeDir()`
  pub home_dir : Result String
  -- `os.Environ()`
  pub environ : List String
  -- `os.Open(path)`, with the text
  pub open_config : String → Result String
  -- `LoadFromReader(file)`
  pub load_from_reader : String → Result ConfigFile
  -- `exec.LookPath(name)`
  pub look_path : String → Result String
  -- `CombinedOutput()` of a helper, with its arguments, environment and input
  pub run_helper : String → List String → List String → String → Result String
  -- `json.Unmarshal(output, &creds)` and `json.MarshalIndent(&cfg, "", "  ")`
  pub decode : String → Result Credentials
  pub encode_config : ConfigFile → Result String
  pub mkdir_all : String → Act World (Unit {0})
  pub stat : String → World → Result (Unit {0})
  pub write_file : String → String → Act World (Unit {0})

module _ (h : LookupHost) where
  abbrev pub config_from : Result String → Result ConfigFile
  config_from (ok text) = h.load_from_reader text
  config_from (err e) = if is_not_exist e then ok empty_config_file else err e
  config_from panicked = panicked

  -- `loadConfig`
  unfoldable pub load_config : Result ConfigFile
  load_config = context "failed to get home directory" h.home_dir >>= λ home.
      config_from
        (h.open_config (join_path (join_path (home ∷ ".finch" ∷ []) ∷ "config.json" ∷ [])))

  -- The path of a helper; a helper that is not found gives the empty path, with a warning.
  abbrev pub path_or_empty : Result String → String
  path_or_empty (ok path) = path
  path_or_empty (err e) = ""
  path_or_empty panicked = ""

  abbrev pub helper_path : String → String
  helper_path helper = path_or_empty (h.look_path ("docker-credential-" <> helper))

  abbrev pub store_path : ConfigFile → String
  store_path cfg =
      if not (cfg.credentials_store == "") then helper_path cfg.credentials_store else ""

  abbrev pub helper_for : String → Option (List (String × String)) → Option String
  helper_for registry none = none
  helper_for registry (some helpers) = if registry == "" then none else lookup registry helpers

  -- `getCredHelperPath`; the empty path stands for the credentials in the configuration.
  unfoldable pub get_cred_helper_path : String → ConfigFile → String
  unfolding lookup ◌==◌
  get_cred_helper_path registry cfg = elim (helper_for registry cfg.credential_helpers) [
    | some helper ↦ helper_path helper
    | none ↦ store_path cfg
  ]

  abbrev pub bare : String → Credentials
  bare registry = record { server_url = registry; username = ""; secret = "" }

  abbrev pub from_auth : String → Option AuthConfig → Credentials
  from_auth registry none = bare registry
  from_auth registry (some a) = record {
    server_url = registry;
    username = a.username;
    secret = a.password;
  }

  -- `readCredentialsFromConfig`
  unfoldable pub read_credentials_from_config : String → ConfigFile → Credentials
  unfolding lookup
  read_credentials_from_config registry cfg = elim cfg.auth_configs [
    | none ↦ bare registry
    | some auths ↦ from_auth registry (lookup registry auths)
  ]

  abbrev pub assignment : String × String → String
  assignment (k, v) = k <> ("=" <> v)

  abbrev pub ask_helper : String → List (String × String) → String → Result Credentials
  ask_helper registry env path =
      context "credential helper failed"
        (h.run_helper path ("get" ∷ []) (h.environ ++ map assignment env) registry)
      >>= λ out. context "failed to parse credential response" (h.decode out)

  abbrev pub credentials_with : String → List (String × String) → ConfigFile → Result Credentials
  credentials_with registry env cfg =
      if get_cred_helper_path registry cfg == ""
      then ok (read_credentials_from_config registry cfg)
      else ask_helper registry env (get_cred_helper_path registry cfg)

  -- `GetCredentials`, with the one map of variables in the order in which `range` visits it
  unfoldable pub get_credentials : String → List (String × String) → Result Credentials
  get_credentials registry env =
      context "failed to load config" load_config >>= credentials_with registry env

  -- `isOSXKeychainUsable`
  unfoldable pub is_osx_keychain_usable : Bool
  is_osx_keychain_usable = usable (h.look_path "docker-credential-osxkeychain")
    where
      ran : Result String → Bool
      ran (ok out) = true
      ran (err e) = false
      ran panicked = false

      usable : Result String → Bool
      usable (ok path) = ran (h.run_helper path ("list" ∷ []) h.environ "")
      usable (err e) = false
      usable panicked = false

  abbrev pub first_config : ConfigFile
  first_config = record empty_config_file {
    credentials_store = if is_osx_keychain_usable then "osxkeychain" else "";
  }

  abbrev pub create_config : String → Act h.World (Unit {0})
  create_config path w = elim (h.encode_config first_config) [
    | ok text ↦ h.write_file path text w
    | err e ↦ (err e, w)
    | panicked ↦ (panicked, w)
  ]

  -- A configuration that is there is left alone.
  abbrev pub unless_there : String → Result (Unit {0}) → Act h.World (Unit {0})
  unless_there path (ok u) w = (ok tt, w)
  unless_there path (err e) w =
      if is_not_exist e
      then create_config path w
      else (context "failed to check config file" (err e), w)
  unless_there path panicked w = (panicked, w)

  -- `EnsureConfigExists`
  unfoldable pub ensure_config_exists : String → Act h.World (Unit {0})
  ensure_config_exists finch_path =
      described "failed to create finch directory" (h.mkdir_all finch_path) >> λ w.
      unless_there (join_path (finch_path ∷ "config.json" ∷ []))
        (h.stat (join_path (finch_path ∷ "config.json" ∷ [])) w) w

-- ===== src/Login.antt =====
-- cmd/finch/login_local.go and logout_local.go: `finch login` and `finch logout`.
pub mod Sent
use finch.Prelude.{
  String, ◌<>◌, ◌==◌, Bool, true, false, ◌&&◌, not, Option, none, some, List, [], ◌∷◌,
  if◌then◌else◌, message, Result, ok, err, panicked,
}
use finch.Prelude.Act.{Act, pure, raise, ◌>>=◌, ◌>>◌}
use finch.Text.{has_char, trim_suffix, replace_all}
use finch.Text.FilePath.{join_path}
use finch.Credserver.Lookup.{LookupHost, ensure_config_exists}

-- The flags of `finch login`, as cobra reads them.
pub record LoginFlags : Type 0 where
  pub namespace : String
  pub username : String
  pub password : String
  pub password_stdin : Bool

-- `types.LoginCommandOptions`, of which the program sets these
pub record LoginOptions : Type 0 where
  pub namespace : String
  pub server_address : String
  pub username : String
  pub password : String

-- What nerdctl's `Login` returns, prints, and prints as errors.
pub record LoginReply : Type 0 where
  pub result : Result (Unit {0})
  pub out : String
  pub stderr : String

-- What nerdctl's `Logout` returns: errors by registry, and an error.
pub record LogoutReply : Type 0 where
  pub err_group : Option (List String)
  pub result : Result (Unit {0})

-- The system below the configuration, the streams, and nerdctl's library.
pub record LoginHost (c : LookupHost) : Type 1 where
  pub read_stdin : Act c.World String
  pub log : String → c.World → c.World
  -- `os.Pipe()`, and the read of all that was written to it
  pub open_pipe : Act c.World (Unit {0})
  pub read_pipe : LoginReply → Act c.World String
  pub print : String → c.World → c.World
  pub print_error : String → c.World → c.World
  pub login : LoginOptions → c.World → LoginReply × c.World
  pub logout : String → c.World → LogoutReply × c.World

abbrev pub first_or_empty : List String → String
first_or_empty [] = ""
first_or_empty (s ∷ ss) = s

-- The address of the server is set where there is one argument.
abbrev pub server_of : List String → String
server_of (s ∷ []) = s
server_of _ = ""

-- The line of the standard input, without its end.
unfoldable pub without_line_end : String → String
unfolding trim_suffix
without_line_end contents = trim_suffix (trim_suffix contents "\n") "\r"

module _ (c : LookupHost) (h : LoginHost c) where
  abbrev pub config_there : Act c.World (Unit {0})
  config_there =
      raise c.home_dir >>= λ home. ensure_config_exists c (join_path (home ∷ ".finch" ∷ []))

  abbrev pub typed_password : LoginFlags → Act c.World String
  typed_password f w =
      if f.password_stdin
      then (if f.username == ""
          then (err (message "must provide --username with --password-stdin"), w)
          else (h.read_stdin >>= λ contents. pure (without_line_end contents)) w)
      else (ok f.password, w)

  abbrev pub insecure : String
  insecure = "WARNING! Using --password via the CLI is insecure. Use --password-stdin."

  abbrev pub one_password : LoginFlags → Act c.World (Unit {0})
  one_password f w = if f.password == "" then (ok tt, w) else (
    if f.password_stdin
        then err (message "--password and --password-stdin are mutually exclusive")
        else ok tt,
    h.log insecure w,
  )

  abbrev pub without_colons : LoginFlags → Result (Unit {0})
  without_colons f =
      if has_char f.username 58 then err (message "username cannot contain colons") else ok tt

  -- `loginOptions`
  unfoldable pub login_options : LoginFlags → Act c.World LoginOptions
  unfolding has_char ◌==◌ without_line_end
  login_options f = raise (without_colons f) >> one_password f >> typed_password f >>= λ password.
      pure (record {
        namespace = f.namespace;
        server_address = "";
        username = f.username;
        password = password;
      })

  abbrev pub show_errors : String → c.World → c.World
  show_errors text w =
      if text == ""
      then w
      else h.print_error
          (replace_all text "https://docs.docker.com/go/credential-store/"
            "https://runfinch.com/docs/container-images/authentication/")
          w

  -- The errors are printed first, then the rest.
  abbrev pub show_reply : LoginReply → Act c.World (Unit {0})
  show_reply r = h.read_pipe r >>= λ text w. (r.result, h.print r.out (show_errors text w))

  abbrev pub log_in : LoginOptions → Act c.World (Unit {0})
  log_in o w = let (r, w') = h.login o w in show_reply r w'

  -- `loginAction`
  unfoldable pub login_action : LoginFlags → List String → Act c.World (Unit {0})
  unfolding login_options ensure_config_exists replace_all ◌==◌
  login_action f args = config_there >> login_options f >>= λ o.
      h.open_pipe >> log_in (record o { server_address = server_of args })

  abbrev pub log_all : List String → c.World → c.World
  log_all [] w = w
  log_all (s ∷ ss) w = log_all ss (h.log s w)

  abbrev pub log_failure : String → Result (Unit {0}) → c.World → c.World
  log_failure server (err e) w = h.log ("Failed to erase credentials for: " <> server) w
  log_failure server _ w = w

  abbrev pub log_group : Option (List String) → c.World → c.World
  log_group none w = w
  log_group (some es) w = log_all es (h.log "None of the following entries could be found" w)

  -- `logoutAction`
  unfoldable pub logout_action : List String → Act c.World (Unit {0})
  unfolding ensure_config_exists
  logout_action args = config_there >> λ w.
      let (r, w') = h.logout (first_or_empty args) w in
      (r.result, log_group r.err_group (log_failure (first_or_empty args) r.result w'))

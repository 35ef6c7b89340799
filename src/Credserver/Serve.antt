-- ===== src/Credserver/Serve.antt =====
-- `handleCredentials` of cmd/credserver/main.go: the answer to a request on the socket.
use finch.Prelude.{
  ℕ, String, ◌<>◌, not, ◌==◌, List, [], ◌∷◌, insert, if◌then◌else◌, Result, ok, err, panicked,
}
use finch.Text.{has_prefix, trim_prefix, replace_byte}
use finch.Text.Case.{to_upper}
use finch.Credserver.Lookup.{LookupHost, Credentials, get_credentials, bare}

-- What the handler reads of `http.Request`; the headers in the order in which `range` visits them.
pub record Request : Type 0 where
  pub method : String
  pub server : String
  pub headers : List (String × List String)

pub record Response : Type 0 where
  pub status : ℕ
  pub body : String

-- `http.Error` puts a newline behind the message.
abbrev pub http_error : ℕ → String → Response
http_error status message = record { status = status; body = message <> "\n" }

abbrev pub env_key : String → String
env_key key = replace_byte (to_upper (trim_prefix key "X-Finch-Env-")) b'-' "_"

abbrev pub add_header : String → List String → List (String × String) → List (String × String)
add_header key [] env = env
add_header key (v ∷ vs) env = insert (env_key key) v env

-- `envMap`
unfoldable pub env_map :
    List (String × String) → List (String × List String) → List (String × String)
unfolding has_prefix insert trim_prefix to_upper replace_byte
env_map env [] = env
env_map env ((key, values) ∷ hs) =
    env_map (if has_prefix key "X-Finch-Env-" then add_header key values env else env) hs

module _ (h : LookupHost) (encode : Credentials → Result String) where
  -- What is not found is answered by credentials with the server alone.
  abbrev pub or_bare : String → Result Credentials → Result Credentials
  or_bare server (ok c) = ok c
  or_bare server (err e) = ok (bare h server)
  or_bare server panicked = panicked

  abbrev pub encoded : Result String → Result Response
  encoded (ok text) = ok (record { status = 200; body = text })
  encoded (err e) = ok (http_error 500 "Failed to encode credentials")
  encoded panicked = panicked

  abbrev pub respond : Result Credentials → Result Response
  respond (ok c) = encoded (encode c)
  respond (err e) = err e
  respond panicked = panicked

  -- `handleCredentials`
  unfoldable pub handle_credentials : Request → Result Response
  unfolding env_map get_credentials ◌==◌
  handle_credentials r =
      if not (r.method == "GET")
      then ok (http_error 405 "Method not allowed")
      else if r.server == ""
      then ok (http_error 400 "server query parameter is required")
      else respond (or_bare r.server (get_credentials h r.server (env_map [] r.headers)))

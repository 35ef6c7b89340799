-- ===== src/Credserver/Client.antt =====
-- cmd/finchhost-credential-helper/main.go: the helper inside the machine, which asks the daemon.
use finch.Prelude.{
  ℕ, String, ◌<>◌, Bool, ◌==◌, Option, none, some, List, [], ◌∷◌, nat_eq, is_not_exist,
  if◌then◌else◌, Error, message, Result, ok, err, panicked,
}
use finch.Text.{trim_space}
use finch.Text.Case.{canonical_header_key}
use finch.Text.Decimal.{itoa}
use finch.Credserver.Lookup.{Credentials}

-- What comes back from the daemon; reading the body may fail.
pub record DaemonReply : Type 0 where
  pub status : ℕ
  pub body : Result String

-- The environment, the HTTP client on the socket, and the library for JSON.
pub record ClientHost : Type 0 where
  -- `os.Getenv(key)`
  pub getenv : String → String
  pub uid : ℕ
  -- `fmt.Sscanf(s, "%d", &parsedUID)`
  pub scan_uid : String → Option ℕ
  -- `http.NewRequest(http.MethodGet, url, nil)` gives no error
  pub is_url : String → Bool
  -- `client.Do(req)`, from the socket, the url and the headers
  pub request : String → String → List (String × List String) → Result DaemonReply
  pub stat : String → Result (Unit {0})
  pub decode : String → Result Credentials

-- `credentialEnvs`
abbrev pub credential_envs : List String
credential_envs =
    "COSIGN_PASSWORD" ∷ "AWS_ACCESS_KEY_ID" ∷ "AWS_SECRET_ACCESS_KEY" ∷ "AWS_SESSION_TOKEN"
    ∷ "AWS_ECR_DISABLE_CACHE" ∷ "AWS_ECR_CACHE_DIR" ∷ "AWS_ECR_IGNORE_CREDS_STORAGE" ∷ "AWS_PROFILE"
    ∷ []

-- `credentials.NewErrCredentialsNotFound()`
abbrev pub not_found : Error
not_found = message "credentials not found in native keychain"

-- The loop over the variables. `Header.Set` makes the name canonical; no two of these names are the
-- same.
unfoldable pub headers_of : (String → String) → List String → List (String × List String)
unfolding ◌==◌ canonical_header_key
headers_of getenv [] = []
headers_of getenv (k ∷ ks) =
    let rest = headers_of getenv ks in
    if getenv k == ""
    then rest
    else (canonical_header_key ("X-Finch-Env-" <> k), getenv k ∷ []) ∷ rest

module _ (h : ClientHost) where
  abbrev pub uid_or : Option ℕ → ℕ
  uid_or none = h.uid
  uid_or (some n) = n

  -- `getSocketPath`
  unfoldable pub get_socket_path : String
  unfolding itoa ◌==◌
  get_socket_path =
      let sudo_uid = h.getenv "SUDO_UID" in
      let n = if sudo_uid == "" then h.uid else uid_or (h.scan_uid sudo_uid) in
      "/run/user/" <> (itoa n <> "/finch-creds.sock")

  -- The error of a request that got no answer.
  abbrev pub unanswered : Result (Unit {0}) → Result (String × String)
  unanswered (ok u) = err not_found
  unanswered (err e) =
      if is_not_exist e
      then err (
          message (
            "credential server socket not found at "
            <> (get_socket_path
                <> ". The credential server may not be running. Try restarting the VM with 'finch vm stop' and 'finch vm start'")))
      else err not_found
  unanswered panicked = panicked

  abbrev pub of_credentials : Result Credentials → Result (String × String)
  of_credentials (ok c) = ok (c.username, c.secret)
  of_credentials (err e) = err not_found
  of_credentials panicked = panicked

  abbrev pub of_body : Result String → Result (String × String)
  of_body (ok text) = of_credentials (h.decode text)
  of_body (err e) = err not_found
  of_body panicked = panicked

  abbrev pub answered : Result DaemonReply → Result (String × String)
  answered (ok r) = if nat_eq r.status 200 then of_body r.body else err not_found
  answered (err e) = unanswered (h.stat get_socket_path)
  answered panicked = panicked

  -- `Get`: the name and the secret
  unfoldable pub get_from_host : String → Result (String × String)
  unfolding trim_space headers_of get_socket_path
  get_from_host server_url =
      let url = "http://unix/credentials?server=" <> trim_space server_url in
      if h.is_url url
      then answered (h.request get_socket_path url (headers_of h.getenv credential_envs))
      else err not_found

-- ===== src/Credserver/Known.antt =====
-- Where the credentials that are served come from.
use finch.Prelude.{
  ℕ, String, Bool, true, false, not, ◌==◌, ==_iff, Option, none, some, List, [], ◌∷◌, ◌++◌, map,
  ◌>>=◌, Error, inl, inr, ◌≡◌, refl, ap, ◌∙◌, arith, lookup, if◌then◌else◌, Result, ok, err,
  panicked, ok_inj, context, context-eq_ok, bind-eq_ok,
}
use mathlib.Core.Path.{subst}
use finch.Credserver.Lookup.{
  LookupHost, Credentials, ConfigFile, AuthConfig, load_config, get_cred_helper_path, bare,
  from_auth, read_credentials_from_config, assignment, ask_helper, credentials_with,
  get_credentials,
}
use finch.Credserver.Sources.{
  Helper, Unanswered, no_config, no_reply, no_sense, IsKnown, from_helper, from_entry, unlisted,
  no_answer, get_cred_helper_path-Helper,
}
use finch.Credserver.Serve.{
  Request, Response, http_error, env_map, or_bare, encoded, respond, handle_credentials,
}

module _ (h : LookupHost) (registry : String) (env : List (String × String)) where
  read_credentials_from_config-IsKnown :
      (cfg : ConfigFile)
      → load_config h ≡ ok cfg
      → Helper h registry cfg ""
      → IsKnown h registry env (read_credentials_from_config h registry cfg)
  unfolding read_credentials_from_config
  read_credentials_from_config-IsKnown cfg l p = go cfg.auth_configs refl
    where
      entry :
          (auths : List (String × AuthConfig)) (o : Option AuthConfig)
          → cfg.auth_configs ≡ some auths
          → lookup registry auths ≡ o
          → IsKnown h registry env (from_auth h registry o)
      entry auths none a e = unlisted cfg l p (inr (auths, a, e))
      entry auths (some x) a e = from_entry cfg auths x l p a e

      go :
          (o : Option (List (String × AuthConfig)))
          → cfg.auth_configs ≡ o
          → IsKnown h registry env (elim o [
            | none ↦ bare h registry
            | some auths ↦ from_auth h registry (lookup registry auths)
          ])
      go none a = unlisted cfg l p (inl a)
      go (some auths) a = entry auths (lookup registry auths) a refl

  ask_helper-IsKnown :
      (cfg : ConfigFile) (c : Credentials)
      → load_config h ≡ ok cfg
      → (get_cred_helper_path h registry cfg == "") ≡ false
      → ask_helper h registry env (get_cred_helper_path h registry cfg) ≡ ok c
      → IsKnown h registry env c
  ask_helper-IsKnown cfg c l found e =
      let ran =
        h.run_helper (get_cred_helper_path h registry cfg) ("get" ∷ [])
          (h.environ ++ map (assignment h) env) registry in
      let (out, r, d) =
        bind-eq_ok (context "credential helper failed" ran)
          (λ out. context "failed to parse credential response" (h.decode out)) c e in
      from_helper cfg (get_cred_helper_path h registry cfg) out c l
        (get_cred_helper_path-Helper h registry cfg) found
        (context-eq_ok "credential helper failed" ran out r)
        (context-eq_ok "failed to parse credential response" (h.decode out) c d)

  get_credentials-IsKnown :
      (c : Credentials) → get_credentials h registry env ≡ ok c → IsKnown h registry env c
  unfolding get_credentials
  get_credentials-IsKnown c e =
      let (cfg, l, n) =
        bind-eq_ok (context "failed to load config" (load_config h))
          (credentials_with h registry env) c e in
      go cfg (context-eq_ok "failed to load config" (load_config h) cfg l)
        (get_cred_helper_path h registry cfg == "") refl n
    where
      go :
          (cfg : ConfigFile)
          → load_config h ≡ ok cfg
          → (b : Bool) → (get_cred_helper_path h registry cfg == "") ≡ b
          → (if b
              then ok (read_credentials_from_config h registry cfg)
              else ask_helper h registry env (get_cred_helper_path h registry cfg))
            ≡ ok c
          → IsKnown h registry env c
      go cfg l true q n =
          subst (IsKnown h registry env) (ok_inj (read_credentials_from_config h registry cfg) c n)
            (read_credentials_from_config-IsKnown cfg l (
              subst (Helper h registry cfg) (==_iff (get_cred_helper_path h registry cfg) "" q)
                (get_cred_helper_path-Helper h registry cfg)))
      go cfg l false q n = ask_helper-IsKnown cfg c l q n

  ask_helper-Unanswered :
      (cfg : ConfigFile) (e : Error)
      → load_config h ≡ ok cfg
      → (get_cred_helper_path h registry cfg == "") ≡ false
      → ask_helper h registry env (get_cred_helper_path h registry cfg) ≡ err e
      → Unanswered h registry env
  ask_helper-Unanswered cfg e l found q = go ran refl q
    where
      path : String
      path = get_cred_helper_path h registry cfg

      helper : Helper h registry cfg path
      helper = get_cred_helper_path-Helper h registry cfg

      ran : Result String
      ran = h.run_helper path ("get" ∷ []) (h.environ ++ map (assignment h) env) registry

      parsed :
          (out : String) (d : Result Credentials)
          → ran ≡ ok out
          → h.decode out ≡ d
          → context "failed to parse credential response" d ≡ err e
          → Unanswered h registry env
      parsed out (ok c) r d q = cc
      parsed out (err x) r d q = no_sense cfg path out x l helper found r d
      parsed out panicked r d q = cc

      go :
          (a : Result String)
          → ran ≡ a
          → (context "credential helper failed" a >>= λ out.
              context "failed to parse credential response" (h.decode out))
            ≡ err e
          → Unanswered h registry env
      go (ok out) r q = parsed out (h.decode out) r refl q
      go (err x) r q = no_reply cfg path x l helper found r
      go panicked r q = cc

  get_credentials-Unanswered :
      (e : Error) → get_credentials h registry env ≡ err e → Unanswered h registry env
  unfolding get_credentials
  get_credentials-Unanswered e q = go (load_config h) refl q
    where
      asked :
          (cfg : ConfigFile) (b : Bool)
          → load_config h ≡ ok cfg
          → (get_cred_helper_path h registry cfg == "") ≡ b
          → (if b
              then ok (read_credentials_from_config h registry cfg)
              else ask_helper h registry env (get_cred_helper_path h registry cfg))
            ≡ err e
          → Unanswered h registry env
      asked cfg true l b q = cc
      asked cfg false l b q = ask_helper-Unanswered cfg e l b q

      go :
          (a : Result ConfigFile)
          → load_config h ≡ a
          → (context "failed to load config" a >>= credentials_with h registry env) ≡ err e
          → Unanswered h registry env
      go (ok cfg) l q = asked cfg (get_cred_helper_path h registry cfg == "") l refl q
      go (err x) l q = no_config x l
      go panicked l q = cc

module _ (h : LookupHost) (encode : Credentials → Result String) where
  -- An answer with status 200 encodes what the helper says that the configuration names for the
  -- registry, asked with the variables of the headers; where there is no helper, the entry for exactly
  -- this registry; and nothing but the name of the registry only where there is neither, or where the
  -- configuration cannot be loaded or the helper fails.
  pub handle_credentials-IsKnown :
      (r : Request) (a : Response)
      → handle_credentials h encode r ≡ ok a
      → a.status ≡ 200
      → (c : Credentials) × (encode c ≡ ok a.body) × IsKnown h r.server (env_map [] r.headers) c
  unfolding handle_credentials
  handle_credentials-IsKnown r a e s =
      go (not (r.method == "GET")) (r.server == "")
        (get_credentials h r.server (env_map [] r.headers)) refl e
    where
      Served : Type 0
      Served =
          (c : Credentials) × (encode c ≡ ok a.body) × IsKnown h r.server (env_map [] r.headers) c

      wrong :
          (n : ℕ) (text : String)
          → ¬ (n ≡ 200)
          → ◌≡◌ {A = Result Response} (ok (http_error n text)) (ok a)
          → ⊥
      wrong n text k e = k (ap (λ x. x.status) (ok_inj (http_error n text) a e) ∙ s)

      sent :
          (c : Credentials) (t : Result String)
          → encode c ≡ t
          → IsKnown h r.server (env_map [] r.headers) c
          → encoded h encode t ≡ ok a
          → Served
      sent c (ok text) q k e = (c, q ∙ ap ok (ap (λ x. x.body) (ok_inj _ a e)), k)
      sent c (err x) q k e = absurd (wrong 500 "Failed to encode credentials" (λ q. omega arith) e)
      sent c panicked q k e = cc

      go :
          (m u : Bool) (g : Result Credentials)
          → get_credentials h r.server (env_map [] r.headers) ≡ g
          → (if m
              then ok (http_error 405 "Method not allowed")
              else if u
              then ok (http_error 400 "server query parameter is required")
              else respond h encode (or_bare h encode r.server g))
            ≡ ok a
          → Served
      go true u g q e = absurd (wrong 405 "Method not allowed" (λ q. omega arith) e)
      go false true g q e =
          absurd (wrong 400 "server query parameter is required" (λ q. omega arith) e)
      go false false (ok c) q e =
          sent c (encode c) refl (get_credentials-IsKnown h r.server (env_map [] r.headers) c q) e
      go false false (err x) q e =
          sent (bare h r.server) (encode (bare h r.server)) refl
            (no_answer (get_credentials-Unanswered h r.server (env_map [] r.headers) x q)) e
      go false false panicked q e = cc

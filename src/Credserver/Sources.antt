-- ===== src/Credserver/Sources.antt =====
-- Which helper the configuration names for a registry, and what is known of the registry.
use finch.Prelude.{
  String, ◌<>◌, Bool, true, false, not, ◌==◌, Option, none, some, List, [], ◌∷◌, ◌++◌, map, ◌≡◌,
  ◌⊎◌, inl, inr, refl, sym, ◌∙◌, lookup, if◌then◌else◌, Error, Result, ok, err, panicked,
}
use finch.Credserver.Lookup.{
  LookupHost, Credentials, ConfigFile, AuthConfig, load_config, get_cred_helper_path, store_path,
  helper_for, path_or_empty, helper_path, assignment,
}

-- No helper of its own is named for the registry.
abbrev pub NoneOfItsOwn : String → ConfigFile → Type 0
NoneOfItsOwn registry cfg =
    (cfg.credential_helpers ≡ none)
    ⊎ ((registry == "") ≡ true)
    ⊎ ((hs : List (String × String)) × (cfg.credential_helpers ≡ some hs)
        × (lookup registry hs ≡ none))

-- The helper that the configuration names: the one for the registry, else the store, if there is one.
pub data Names (registry : String) (cfg : ConfigFile) : Option String → Type 0 where
  of_registry :
      (hs : List (String × String)) (name : String)
      → cfg.credential_helpers ≡ some hs
      → (registry == "") ≡ false
      → lookup registry hs ≡ some name
      → Names registry cfg (some name)
  of_store :
      NoneOfItsOwn registry cfg
      → (cfg.credentials_store == "") ≡ false
      → Names registry cfg (some cfg.credentials_store)
  no_name :
      NoneOfItsOwn registry cfg → (cfg.credentials_store == "") ≡ true → Names registry cfg none

-- The program of the helper; the empty path where none is named or none is found.
pub data Helper (h : LookupHost) (registry : String) (cfg : ConfigFile) : String → Type 0 where
  at :
      (name path : String)
      → Names registry cfg (some name)
      → h.look_path ("docker-credential-" <> name) ≡ ok path
      → Helper h registry cfg path
  missing :
      (name : String)
      → Names registry cfg (some name)
      → ((path : String) → ¬ (h.look_path ("docker-credential-" <> name) ≡ ok path))
      → Helper h registry cfg ""
  unnamed : Names registry cfg none → Helper h registry cfg ""

-- No answer: the configuration cannot be loaded, or the helper fails, or what it says is no JSON.
pub data Unanswered (h : LookupHost) (registry : String) (env : List (String × String))
    : Type 0 where
  no_config : (e : Error) → load_config h ≡ err e → Unanswered h registry env
  no_reply :
      (cfg : ConfigFile) (path : String) (e : Error)
      → load_config h ≡ ok cfg
      → Helper h registry cfg path
      → (path == "") ≡ false
      → h.run_helper path ("get" ∷ []) (h.environ ++ map (assignment h) env) registry ≡ err e
      → Unanswered h registry env
  no_sense :
      (cfg : ConfigFile) (path out : String) (e : Error)
      → load_config h ≡ ok cfg
      → Helper h registry cfg path
      → (path == "") ≡ false
      → h.run_helper path ("get" ∷ []) (h.environ ++ map (assignment h) env) registry ≡ ok out
      → h.decode out ≡ err e
      → Unanswered h registry env

-- What is known of a registry: the answer of the helper that the configuration names for it; where
-- there is no helper, the entry of the configuration for exactly this registry, or nothing but the
-- name where there is no such entry; and nothing but the name where there is no answer.
pub data IsKnown (h : LookupHost) (registry : String) (env : List (String × String))
    : Credentials → Type 0 where
  from_helper :
      (cfg : ConfigFile) (path out : String) (c : Credentials)
      → load_config h ≡ ok cfg
      → Helper h registry cfg path
      → (path == "") ≡ false
      → h.run_helper path ("get" ∷ []) (h.environ ++ map (assignment h) env) registry ≡ ok out
      → h.decode out ≡ ok c
      → IsKnown h registry env c
  from_entry :
      (cfg : ConfigFile) (auths : List (String × AuthConfig)) (a : AuthConfig)
      → load_config h ≡ ok cfg
      → Helper h registry cfg ""
      → cfg.auth_configs ≡ some auths
      → lookup registry auths ≡ some a
      → IsKnown h registry env
          (record { server_url = registry; username = a.username; secret = a.password })
  unlisted :
      (cfg : ConfigFile)
      → load_config h ≡ ok cfg
      → Helper h registry cfg ""
      → (cfg.auth_configs ≡ none)
        ⊎ ((auths : List (String × AuthConfig)) × (cfg.auth_configs ≡ some auths)
            × (lookup registry auths ≡ none))
      → IsKnown h registry env (record { server_url = registry; username = ""; secret = "" })
  no_answer :
      Unanswered h registry env
      → IsKnown h registry env (record { server_url = registry; username = ""; secret = "" })

module _ (h : LookupHost) (registry : String) (cfg : ConfigFile) where
  helper_path-Helper :
      (name : String) → Names registry cfg (some name) → Helper h registry cfg (helper_path h name)
  helper_path-Helper name n = go (h.look_path ("docker-credential-" <> name)) refl
    where
      go :
          (r : Result String)
          → h.look_path ("docker-credential-" <> name) ≡ r
          → Helper h registry cfg (path_or_empty h r)
      go (ok path) q = at name path n q
      go (err e) q = missing name n (λ path k. let x = sym q ∙ k in cc)
      go panicked q = missing name n (λ path k. let x = sym q ∙ k in cc)

  store_path-Helper : NoneOfItsOwn registry cfg → Helper h registry cfg (store_path h cfg)
  store_path-Helper own = go (cfg.credentials_store == "") refl
    where
      go :
          (b : Bool)
          → (cfg.credentials_store == "") ≡ b
          → Helper h registry cfg (if not b then helper_path h cfg.credentials_store else "")
      go true q = unnamed (no_name own q)
      go false q = helper_path-Helper cfg.credentials_store (of_store own q)

  -- `getCredHelperPath` finds the helper that the configuration names.
  pub get_cred_helper_path-Helper : Helper h registry cfg (get_cred_helper_path h registry cfg)
  unfolding get_cred_helper_path
  get_cred_helper_path-Helper = go cfg.credential_helpers refl
    where
      Chosen : Option String → Type 0
      Chosen o =
          Helper h registry cfg
            (elim o [ some helper ↦ helper_path h helper | none ↦ store_path h cfg ])

      listed :
          (hs : List (String × String)) (o : Option String)
          → cfg.credential_helpers ≡ some hs
          → (registry == "") ≡ false
          → lookup registry hs ≡ o
          → Chosen o
      listed hs none q e l = store_path-Helper (inr (inr (hs, q, l)))
      listed hs (some name) q e l = helper_path-Helper name (of_registry hs name q e l)

      named :
          (hs : List (String × String)) (b : Bool)
          → cfg.credential_helpers ≡ some hs
          → (registry == "") ≡ b
          → Chosen (if b then none else lookup registry hs)
      named hs true q e = store_path-Helper (inr (inl e))
      named hs false q e = listed hs (lookup registry hs) q e refl

      go :
          (o : Option (List (String × String)))
          → cfg.credential_helpers ≡ o
          → Chosen (helper_for h registry o)
      go none q = store_path-Helper (inl q)
      go (some hs) q = named hs (registry == "") q refl

-- ===== src/Credserver/Variables.antt =====
-- The variables that the helper in the machine sends are the ones that the daemon sees.
use finch.Prelude.{
  String, ◌<>◌, Bool, true, false, not, ◌&&◌, ◌||◌, ◌==◌, ==_iff, Option, none, some, List, [], ◌∷◌,
  ◌≡◌, refl, sym, ap, ◌∙◌, lookup, insert, lookup-insert, contains, if◌then◌else◌,
}
use finch.Text.{has_prefix, trim_prefix, replace_byte}
use finch.Text.Case.{canonical_header_key, to_upper}
use finch.Credserver.Serve.{env_key, env_map}
use finch.Credserver.Client.{credential_envs, headers_of}

-- The name survives the way through a header.
IsRestored : String → Type 0
IsRestored k =
    (has_prefix (canonical_header_key ("X-Finch-Env-" <> k)) "X-Finch-Env-" ≡ true)
    × (env_key (canonical_header_key ("X-Finch-Env-" <> k)) ≡ k)

AllRestored : List String → Type 0
AllRestored [] = Unit
AllRestored (k ∷ ks) = IsRestored k × AllRestored ks

credential_envs-AllRestored : AllRestored credential_envs
unfolding AllRestored IsRestored has_prefix canonical_header_key trim_prefix to_upper replace_byte
credential_envs-AllRestored = (
  (refl, refl),
  (
    (refl, refl),
    (
      (refl, refl),
      ((refl, refl), ((refl, refl), ((refl, refl), ((refl, refl), ((refl, refl), tt))))),
    ),
  ),
)

-- A header with a restored name adds its variable.
env_map-add :
    (env : List (String × String)) (key x v : String) (hs : List (String × List String))
    → has_prefix key "X-Finch-Env-" ≡ true
    → env_key key ≡ x
    → env_map env ((key, v ∷ []) ∷ hs) ≡ env_map (insert x v env) hs
unfolding env_map
env_map-add env key x v hs p q =
    ap (λ b. env_map (if b then insert (env_key key) v env else env) hs) p
    ∙ ap (λ y. env_map (insert y v env) hs) q

module _ (getenv : String → String) where
  lookup-env_map :
      (ks : List String) (env : List (String × String)) (k : String)
      → AllRestored ks
      → lookup k (env_map env (headers_of getenv ks))
        ≡ (if contains ks k && not (getenv k == "") then some (getenv k) else lookup k env)
  unfolding env_map headers_of contains AllRestored IsRestored
  lookup-env_map [] env k r = refl
  lookup-env_map (x ∷ xs) env k ((p, q), r) =
      go (getenv x == "") refl (x == k) refl (λ e. lookup-env_map xs e k r)
    where
      go :
          (b : Bool)
          → (getenv x == "") ≡ b
          → (c : Bool) → (x == k) ≡ c
          → ((e : List (String × String))
              → lookup k (env_map e (headers_of getenv xs))
                ≡ (if contains xs k && not (getenv k == "") then some (getenv k) else lookup k e))
          → lookup k (
              env_map env (
                if b
                then headers_of getenv xs
                else (canonical_header_key ("X-Finch-Env-" <> x), getenv x ∷ [])
                  ∷ headers_of getenv xs))
            ≡ (if (c || contains xs k) && not (getenv k == "")
                then some (getenv k)
                else lookup k env)
      go true v true w ih = rw (ih env, empty) (both (contains xs k))
        where
          empty : (getenv k == "") ≡ true
          empty = ap (λ y. getenv y == "") (sym (==_iff x k w)) ∙ v

          both :
              (c : Bool)
              → ◌≡◌ {A = Option String}
                  (if c && false then some (getenv k) else lookup k env)
                  (lookup k env)
          both true = refl
          both false = refl
      go true v false w ih = ih env
      go false v true w ih =
          ap (lookup k) (
            env_map-add env (canonical_header_key ("X-Finch-Env-" <> x)) x (getenv x)
              (headers_of getenv xs) p q)
          ∙ ih (insert x (getenv x) env)
          ∙ rw (lookup-insert k x (getenv x) env, w, set) (both (contains xs k))
        where
          set : (getenv k == "") ≡ false
          set = ap (λ y. getenv y == "") (sym (==_iff x k w)) ∙ v

          both :
              (c : Bool)
              → ◌≡◌ {A = Option String}
                  (if c && true then some (getenv k) else some (getenv x))
                  (some (getenv k))
          both true = refl
          both false = ap (λ y. some (getenv y)) (==_iff x k w)
      go false v false w ih =
          ap (lookup k) (
            env_map-add env (canonical_header_key ("X-Finch-Env-" <> x)) x (getenv x)
              (headers_of getenv xs) p q)
          ∙ ih (insert x (getenv x) env)
          ∙ rw (lookup-insert k x (getenv x) env, w) refl

  -- The daemon sees each variable of the list as the helper in the machine has it, where it is not
  -- empty, and no other.
  pub lookup-env_map_of_headers :
      (k : String)
      → lookup k (env_map [] (headers_of getenv credential_envs))
        ≡ (if contains credential_envs k && not (getenv k == "") then some (getenv k) else none)
  unfolding lookup
  lookup-env_map_of_headers k = lookup-env_map credential_envs [] k credential_envs-AllRestored

-- ===== src/Nerdctl/Envs/Precedence.antt =====
-- Which value a container's environment variable gets.
use finch.Prelude.{
  String, ◌≡◌, refl, ◌∙◌, ap, Option, none, some, List, [], ◌∷◌, ◌==◌, if◌then◌else◌, lookup,
  lookup-insert, NodupKeys, insert-NodupKeys,
}
use finch.Text.{cut_before, cut_after}
use finch.Nerdctl.Deps.{OrderedMap, IsOrdered}
use finch.Nerdctl.Envs.{set_envs, env_vars}

-- The value of the last entry for `k`, where one is there; `old` where none is.
unfoldable pub last_value : String → Option String → List String → Option String
last_value k old [] = old
last_value k old (e ∷ es) =
    last_value k (if cut_before e b'=' == k then some (cut_after e b'=') else old) es

module _ (o : OrderedMap) (law : IsOrdered o) where
  lookup-set_envs :
      (k : String) (es : List String) (m : o.M)
      → lookup k (o.pairs (set_envs o es m)) ≡ last_value k (lookup k (o.pairs m)) es
  unfolding set_envs last_value
  lookup-set_envs k [] m = refl
  lookup-set_envs k (e ∷ es) m =
      lookup-set_envs k es (o.set (cut_before e b'=') (cut_after e b'=') m)
      ∙ ap (λ old. last_value k old es)
          (ap (lookup k) (law.pairs-set _ _ m) ∙ lookup-insert k _ _ (o.pairs m))

  -- A variable gets its value from the last flag of the command line that names it. Where none
  -- does, from the last line of the files that names it; and otherwise it is not set.
  pub lookup-env_vars :
      (k : String) (file_envs envs : List String)
      → lookup k (o.pairs (env_vars o file_envs envs))
        ≡ last_value k (last_value k none file_envs) envs
  unfolding env_vars lookup
  lookup-env_vars k file_envs envs =
      lookup-set_envs k envs _
      ∙ ap (λ old. last_value k old envs)
          (lookup-set_envs k file_envs o.new
            ∙ ap (λ old. last_value k old file_envs) (ap (lookup k) law.pairs-new))

  set_envs-NodupKeys :
      (es : List String) (m : o.M) → NodupKeys (o.pairs m) → NodupKeys (o.pairs (set_envs o es m))
  unfolding set_envs
  set_envs-NodupKeys [] m u = u
  set_envs-NodupKeys (e ∷ es) m u =
      set_envs-NodupKeys es _ (rw law.pairs-set (insert-NodupKeys _ _ (o.pairs m) u))

  -- No variable is passed twice.
  pub env_vars-NodupKeys :
      (file_envs envs : List String) → NodupKeys (o.pairs (env_vars o file_envs envs))
  unfolding env_vars
  env_vars-NodupKeys file_envs envs =
      set_envs-NodupKeys envs _ (set_envs-NodupKeys file_envs o.new (rw law.pairs-new tt))

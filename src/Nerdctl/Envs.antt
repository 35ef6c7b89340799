-- ===== src/Nerdctl/Envs.antt =====
-- The environment variables of `run`: those of env files first, then those of the command line.
pub mod Precedence
use finch.Prelude.{
  String, ◌<>◌, Option, none, some, List, [], ◌∷◌, ◌++◌, contains, ◌==◌, if◌then◌else◌,
}
use finch.Text.{cut_before, cut_after}
use finch.Nerdctl.Deps.{OrderedMap}

module _ (o : OrderedMap) where
  -- `for _, e := range envs { evar, eval, _ := strings.Cut(e, "="); envVars.Set(evar, eval) }`
  unfoldable pub set_envs : List String → o.M → o.M
  set_envs [] m = m
  set_envs (e ∷ es) m = set_envs es (o.set (cut_before e b'=') (cut_after e b'=') m)

  -- `envVars`
  unfoldable pub env_vars : List String → List String → o.M
  unfolding set_envs
  env_vars file_envs envs = set_envs envs (set_envs file_envs o.new)

unfoldable pub env_args : List (String × String) → List String
env_args [] = []
env_args ((k, v) ∷ pairs) = "-e" ∷ ((k <> ("=" <> v)) ∷ env_args pairs)

abbrev pub passed_envs : List String
passed_envs =
    "COSIGN_PASSWORD" ∷ "AWS_ACCESS_KEY_ID" ∷ "AWS_SECRET_ACCESS_KEY" ∷ "AWS_SESSION_TOKEN"
    ∷ "COMPOSE_FILE" ∷ "SOURCE_DATE_EPOCH" ∷ "AWS_ECR_DISABLE_CACHE" ∷ "AWS_ECR_CACHE_DIR"
    ∷ "AWS_ECR_IGNORE_CREDS_STORAGE" ∷ "AWS_PROFILE" ∷ []

-- `passedEnvArgs`: of the names, those that the host's environment sets.
unfoldable pub passed_env_args : (String → Option String) → List String → List String
passed_env_args lookup_env [] = []
passed_env_args lookup_env (e ∷ es) = elim (lookup_env e) [
  | none ↦ passed_env_args lookup_env es
  | some v ↦ (e <> ("=" <> v)) ∷ passed_env_args lookup_env es
]

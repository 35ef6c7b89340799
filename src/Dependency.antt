-- ===== src/Dependency.antt =====
-- pkg/dependency/dependency.go: groups of optional dependencies, and their installation.
pub mod Round
pub mod Laws
pub mod Logged
pub mod CredHelper
pub mod Invariant
pub mod Vmnet
use finch.Prelude.{
  String, Bool, true, false, ◌&&◌, ◌||◌, not, Option, none, some, List, [], ◌∷◌, ◌++◌,
  if◌then◌else◌, Error, is_empty,
}

-- What implements the interface `Dependency`.
pub record Installer : Type 1 where
  pub World : Type 0
  pub Dependency : Type 0
  pub requires_root : Dependency → World → Bool
  pub installed : Dependency → World → Bool
  -- `Install`, with its error
  pub install : Dependency → World → Option Error × World

-- `errors.Join` under the message of a group
pub record GroupError : Type 0 where
  pub message : String
  pub errors : List Error

module _ (i : Installer) where
  -- `Group`; a dependency may be nil.
  pub record Group : Type 0 where
    pub deps : List (Option i.Dependency)
    pub desc : String
    pub err_msg : String

  -- The world, and what the logger was told.
  pub record Progress : Type 0 where
    pub world : i.World
    pub logs : List String

  -- The description is logged before the first installation that needs root.
  unfoldable pub announce : String → Bool → Progress → Progress
  announce desc first p = if first then record p { logs = p.logs ++ desc ∷ [] } else p

  abbrev pub with_error : Option Error → List Error → List Error
  with_error none es = es
  with_error (some e) es = e ∷ es

  -- The loop of `installOptional`, with `loggedMessage`.
  unfoldable pub install_all :
      String → List (Option i.Dependency) → Bool → Progress → List Error × Progress
  unfolding announce
  install_all desc [] logged p = ([], p)
  install_all desc (none ∷ ds) logged p = install_all desc ds logged p
  install_all desc (some d ∷ ds) logged p = elim (i.installed d p.world) [
    | true ↦ install_all desc ds logged p
    | false ↦
        let root = i.requires_root d p.world in
        let p' = announce desc (root && not logged) p in
        let (e, w) = i.install d p'.world in
        let (es, p'') = install_all desc ds (logged || root) (record p' { world = w }) in
        (with_error e es, p'')
  ]

  -- `installOptional`
  unfoldable pub install_optional : Group → Progress → Option GroupError × Progress
  unfolding install_all
  install_optional g p =
      let (es, p') = install_all g.desc g.deps false p in
      (if is_empty es then none else some (record { message = g.err_msg; errors = es }), p')

  abbrev pub with_failure : Option GroupError → List GroupError → List GroupError
  with_failure none es = es
  with_failure (some e) es = e ∷ es

  unfoldable pub install_groups : List Group → Progress → List GroupError × Progress
  unfolding install_optional
  install_groups [] p = ([], p)
  install_groups (g ∷ gs) p =
      let (e, p') = install_optional g p in
      let (es, p'') = install_groups gs p' in (with_failure e es, p'')

  -- `InstallOptionalDeps`: the failed groups, under one error if there are any.
  unfoldable pub install_optional_deps : List Group → Progress → Option (List GroupError) × Progress
  unfolding install_groups
  install_optional_deps gs p =
      let (es, p') = install_groups gs p in (if is_empty es then none else some es, p')

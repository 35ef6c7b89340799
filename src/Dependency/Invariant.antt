-- ===== src/Dependency/Invariant.antt =====
-- What every installation keeps, the installation of all groups keeps.
use finch.Prelude.{
  String, Bool, true, false, ◌&&◌, ◌||◌, not, Option, none, some, List, [], ◌∷◌, ◌≡◌, refl, sym,
  Error,
}
use mathlib.Core.Path.{subst}
use finch.Dependency.{
  Installer, Group, Progress, install_all, install_optional, install_groups, install_optional_deps,
  announce, with_error,
}
use finch.Dependency.Round.{announce-world}

module _ (i : Installer) (I : i.World → Type 0)
    (kept : (d : i.Dependency) (w : i.World)
      → i.installed d w ≡ false
      → I w
      → I (i.install d w).1) where
  install_all-kept :
      (desc : String) (ds : List (Option i.Dependency)) (logged : Bool) (p : Progress i)
      → I p.world
      → I (install_all i desc ds logged p).1.world
  unfolding install_all
  install_all-kept desc [] logged p x = x
  install_all-kept desc (none ∷ ds) logged p x = install_all-kept desc ds logged p x
  install_all-kept desc (some d ∷ ds) logged p x =
      go (i.installed d p.world) refl (install_all-kept desc ds)
    where
      root : Bool
      root = i.requires_root d p.world

      p' : Progress i
      p' = announce i desc (root && not logged) p

      after : Progress i
      after = record p' { world = (i.install d p'.world).1 }

      go :
          (b : Bool)
          → i.installed d p.world ≡ b
          → ((l : Bool) (q : Progress i) → I q.world → I (install_all i desc ds l q).1.world)
          → I (
              (elim b as (λ c. List Error × Progress i) [
                | true ↦ install_all i desc ds logged p
                | false ↦ (
                  with_error i
                      (i.install d p'.world).0
                      (install_all i desc ds (logged || root) after).0,
                  (install_all i desc ds (logged || root) after).1,
                )
              ]).1.world)
      go true e ih = ih logged p x
      go false e ih = ih (logged || root) after there
        where
          there : I after.world
          there =
              subst (λ w. I (i.install d w).1) (sym (announce-world i desc (root && not logged) p))
                (kept d p.world e x)

  install_groups-kept :
      (gs : List (Group i)) (p : Progress i) → I p.world → I (install_groups i gs p).1.world
  unfolding install_groups install_optional
  install_groups-kept [] p x = x
  install_groups-kept (g ∷ gs) p x =
      install_groups-kept gs (install_all i g.desc g.deps false p).1
        (install_all-kept g.desc g.deps false p x)

  pub install_optional_deps-kept :
      (gs : List (Group i)) (p : Progress i) → I p.world → I (install_optional_deps i gs p).1.world
  unfolding install_optional_deps
  install_optional_deps-kept gs p x = install_groups-kept gs p x

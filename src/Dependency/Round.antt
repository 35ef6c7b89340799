-- ===== src/Dependency/Round.antt =====
-- One round of the loop of `installOptional`.
use finch.Prelude.{
  String, Bool, true, false, ◌&&◌, ◌||◌, not, Option, some, List, [], ◌∷◌, ◌++◌, ◌≡◌, refl,
  if◌then◌else◌,
}
use finch.Dependency.{Installer, Progress, install_all, announce, with_error}

module _ (i : Installer) where
  pub announce-world :
      (desc : String) (b : Bool) (p : Progress i) → (announce i desc b p).world ≡ p.world
  unfolding announce
  announce-world desc true p = refl
  announce-world desc false p = refl

  -- The progress after an installation.
  abbrev pub attempt : String → i.Dependency → Bool → Progress i → Progress i
  attempt desc d logged p =
      let p' = announce i desc (i.requires_root d p.world && not logged) p in
      record p' { world = (i.install d p'.world).1 }

  -- What was not logged yet is logged once at most.
  pub announce-logs :
      (desc : String) (b : Bool) (p : Progress i)
      → (announce i desc b p).logs ≡ (if b then p.logs ++ desc ∷ [] else p.logs)
  unfolding announce
  announce-logs desc true p = refl
  announce-logs desc false p = refl

  module _ (desc : String) (d : i.Dependency) (ds : List (Option i.Dependency)) (logged : Bool)
      (p : Progress i) where
    pub install_all-there :
        i.installed d p.world ≡ true
        → install_all i desc (some d ∷ ds) logged p ≡ install_all i desc ds logged p
    unfolding install_all
    install_all-there t = rw (install_all, t)

    pub install_all-missing :
        i.installed d p.world ≡ false
        → install_all i desc (some d ∷ ds) logged p ≡ (
          with_error i
              (i.install d (announce i desc (i.requires_root d p.world && not logged) p).world).0
              (install_all i desc ds
                (logged || i.requires_root d p.world)
                (attempt desc d logged p)).0,
          (install_all i desc ds (logged || i.requires_root d p.world) (attempt desc d logged p)).1,
        )
    unfolding install_all
    install_all-missing f = rw (install_all, f)

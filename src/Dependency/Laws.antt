-- ===== src/Dependency/Laws.antt =====
-- What an installation that reports no error has installed.
use finch.Prelude.{
  String, Bool, true, false, ◌&&◌, ◌||◌, not, Option, none, some, List, [], ◌∷◌, Error, ◌≡◌, refl,
  sym, Bool-cases, inl, inr, if◌then◌else◌, is_empty,
}
use mathlib.Core.Path.{subst}
use finch.Dependency.{
  Installer, Group, Progress, GroupError, install_all, install_optional, install_groups,
  install_optional_deps, with_error, with_failure,
}
use finch.Dependency.Round.{announce-world, attempt, install_all-there, install_all-missing}

-- What has been installed without an error is there, and no installation removes another one.
pub record IsInstalling (i : Installer) : Type 0 where
  pub installed-install :
      (d : i.Dependency) (w : i.World)
      → (i.install d w).0 ≡ none
      → i.installed d (i.install d w).1 ≡ true
  pub install_keeps :
      (d e : i.Dependency) (w : i.World)
      → i.installed d w ≡ true
      → i.installed d (i.install e w).1 ≡ true

-- All dependencies of a list that are not nil are there.
abbrev pub Everywhere : (i : Installer) → i.World → List (Option i.Dependency) → Type 0
Everywhere i w [] = Unit
Everywhere i w (none ∷ ds) = Everywhere i w ds
Everywhere i w (some d ∷ ds) = (i.installed d w ≡ true) × Everywhere i w ds

abbrev pub AllGroups : (i : Installer) → i.World → List (Group i) → Type 0
AllGroups i w [] = Unit
AllGroups i w (g ∷ gs) = Everywhere i w g.deps × AllGroups i w gs

module _ (i : Installer) (law : IsInstalling i) where
  -- A loop keeps what is installed.
  install_all-keeps :
      (d : i.Dependency) (desc : String) (ds : List (Option i.Dependency)) (logged : Bool)
      (p : Progress i)
      → i.installed d p.world ≡ true
      → i.installed d (install_all i desc ds logged p).1.world ≡ true
  unfolding install_all
  install_all-keeps d desc [] logged p h = h
  install_all-keeps d desc (none ∷ ds) logged p h = install_all-keeps d desc ds logged p h
  install_all-keeps d desc (some e ∷ ds) logged p h = elim (Bool-cases (i.installed e p.world)) [
    | inl t ↦ rw (install_all, t) (install_all-keeps d desc ds logged p h)
    | inr f ↦
        rw (install_all, f)
          (install_all-keeps d desc ds _ _ (
            law.install_keeps d e _
              (rw (announce-world i desc (i.requires_root e p.world && not logged) p) h)))
  ]

  with_error-eq_nil :
      (e : Option Error) (es : List Error) → with_error i e es ≡ [] → (e ≡ none) × (es ≡ [])
  with_error-eq_nil none es h = (refl, h)
  with_error-eq_nil (some e) es h = cc

  install_all-Everywhere :
      (desc : String) (ds : List (Option i.Dependency)) (logged : Bool) (p : Progress i)
      → (install_all i desc ds logged p).0 ≡ []
      → Everywhere i (install_all i desc ds logged p).1.world ds
  unfolding install_all
  install_all-Everywhere desc [] logged p h = tt
  install_all-Everywhere desc (none ∷ ds) logged p h = install_all-Everywhere desc ds logged p h
  install_all-Everywhere desc (some d ∷ ds) logged p h = elim (Bool-cases (i.installed d p.world)) [
    | inl t ↦
        subst (λ (r : List Error × Progress i). r.0 ≡ [] → Everywhere i r.1.world (some d ∷ ds))
          (sym (install_all-there i desc d ds logged p t))
          (λ h'.
            (install_all-keeps d desc ds logged p t, install_all-Everywhere desc ds logged p h'))
          h
    | inr f ↦
        subst (λ (r : List Error × Progress i). r.0 ≡ [] → Everywhere i r.1.world (some d ∷ ds))
          (sym (install_all-missing i desc d ds logged p f))
          (λ h'.
            let (fine, rest) = with_error-eq_nil _ _ h' in
            (
              install_all-keeps d desc ds (logged || i.requires_root d p.world)
                  (attempt i desc d logged p) (law.installed-install d _ fine),
              install_all-Everywhere desc ds (logged || i.requires_root d p.world)
                  (attempt i desc d logged p) rest,
            ))
          h
  ]

  install_optional-Everywhere :
      (g : Group i) (p : Progress i)
      → (install_optional i g p).0 ≡ none
      → Everywhere i (install_optional i g p).1.world g.deps
  unfolding install_optional
  install_optional-Everywhere g p h =
      install_all-Everywhere g.desc g.deps false p
        (nothing (install_all i g.desc g.deps false p).0 h)
    where
      nothing :
          (es : List Error)
          → if◌then◌else◌ {A = Option GroupError}
              (is_empty es)
              none
              (some (record { message = g.err_msg; errors = es }))
            ≡ none
          → es ≡ []
      nothing [] e = refl
      nothing (x ∷ es) e = cc

  install_groups-keeps :
      (d : i.Dependency) (gs : List (Group i)) (p : Progress i)
      → i.installed d p.world ≡ true
      → i.installed d (install_groups i gs p).1.world ≡ true
  unfolding install_groups install_optional
  install_groups-keeps d [] p h = h
  install_groups-keeps d (g ∷ gs) p h =
      install_groups-keeps d gs _ (install_all-keeps d g.desc g.deps false p h)

  install_groups-Everywhere :
      (ds : List (Option i.Dependency)) (gs : List (Group i)) (p : Progress i)
      → Everywhere i p.world ds
      → Everywhere i (install_groups i gs p).1.world ds
  install_groups-Everywhere [] gs p h = tt
  install_groups-Everywhere (none ∷ ds) gs p h = install_groups-Everywhere ds gs p h
  install_groups-Everywhere (some d ∷ ds) gs p h =
      (install_groups-keeps d gs p h.0, install_groups-Everywhere ds gs p h.1)

  with_failure-eq_nil :
      (e : Option GroupError) (es : List GroupError)
      → with_failure i e es ≡ []
      → (e ≡ none) × (es ≡ [])
  with_failure-eq_nil none es h = (refl, h)
  with_failure-eq_nil (some e) es h = cc

  install_groups-AllGroups :
      (gs : List (Group i)) (p : Progress i)
      → (install_groups i gs p).0 ≡ []
      → AllGroups i (install_groups i gs p).1.world gs
  unfolding install_groups
  install_groups-AllGroups [] p h = tt
  install_groups-AllGroups (g ∷ gs) p h =
      let (fine, rest) = with_failure-eq_nil (install_optional i g p).0 _ h in
      (
        install_groups-Everywhere g.deps gs (install_optional i g p).1
            (install_optional-Everywhere g p fine),
        install_groups-AllGroups gs (install_optional i g p).1 rest,
      )

  -- Where `InstallOptionalDeps` reports no error, every dependency of every group that is not nil is
  -- installed afterwards.
  install_optional_deps-AllGroups :
      (gs : List (Group i)) (p : Progress i)
      → (install_optional_deps i gs p).0 ≡ none
      → AllGroups i (install_optional_deps i gs p).1.world gs
  unfolding install_optional_deps
  install_optional_deps-AllGroups gs p h =
      install_groups-AllGroups gs p (nothing (install_groups i gs p).0 h)
    where
      nothing : (es : List GroupError) → (if is_empty es then none else some es) ≡ none → es ≡ []
      nothing [] e = refl
      nothing (x ∷ es) e = cc

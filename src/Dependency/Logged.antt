-- ===== src/Dependency/Logged.antt =====
-- What an installation logs.
use finch.Prelude.{
  String, Bool, true, false, ◌&&◌, Option, none, some, List, [], ◌∷◌, ◌++◌, Error, ◌≡◌, refl, ap,
  sym, ◌∙◌, Bool-cases, inl, inr, ◌⊎◌, if◌then◌else◌,
}
use mathlib.Core.Path.{subst}
use finch.Dependency.{Installer, Group, Progress, install_all, install_optional}
use finch.Dependency.Round.{attempt, announce-logs, install_all-there, install_all-missing}

module _ (i : Installer) where
  -- After the description was logged, nothing more is.
  logs-logged :
      (desc : String) (ds : List (Option i.Dependency)) (p : Progress i)
      → (install_all i desc ds true p).1.logs ≡ p.logs
  unfolding install_all
  logs-logged desc [] p = refl
  logs-logged desc (none ∷ ds) p = logs-logged desc ds p
  logs-logged desc (some d ∷ ds) p = elim (Bool-cases (i.installed d p.world)) [
    | inl t ↦
        ap (λ (r : List Error × Progress i). r.1.logs) (install_all-there i desc d ds true p t)
        ∙ logs-logged desc ds p
    | inr f ↦
        ap (λ (r : List Error × Progress i). r.1.logs) (install_all-missing i desc d ds true p f)
        ∙ logs-logged desc ds (attempt i desc d true p)
        ∙ announce-logs i desc (i.requires_root d p.world && false) p
        ∙ quiet (i.requires_root d p.world)
  ]
    where
      quiet : (b : Bool) → (if b && false then p.logs ++ desc ∷ [] else p.logs) ≡ p.logs
      quiet true = refl
      quiet false = refl

  logs-install_all :
      (desc : String) (ds : List (Option i.Dependency)) (p : Progress i)
      → ((install_all i desc ds false p).1.logs ≡ p.logs)
        ⊎ ((install_all i desc ds false p).1.logs ≡ p.logs ++ desc ∷ [])
  unfolding install_all
  logs-install_all desc [] p = inl refl
  logs-install_all desc (none ∷ ds) p = logs-install_all desc ds p
  logs-install_all desc (some d ∷ ds) p = elim (Bool-cases (i.installed d p.world)) [
    | inl t ↦
        subst
          (λ (r : List Error × Progress i). (r.1.logs ≡ p.logs) ⊎ (r.1.logs ≡ p.logs ++ desc ∷ []))
          (sym (install_all-there i desc d ds false p t)) (logs-install_all desc ds p)
    | inr f ↦
        subst
          (λ (r : List Error × Progress i). (r.1.logs ≡ p.logs) ⊎ (r.1.logs ≡ p.logs ++ desc ∷ []))
          (sym (install_all-missing i desc d ds false p f))
          (elim (Bool-cases (i.requires_root d p.world)) [
            | inl r ↦ inr (
                ap (λ b. (install_all i desc ds b (attempt i desc d false p)).1.logs) r
                ∙ logs-logged desc ds (attempt i desc d false p)
                ∙ announce-logs i desc (i.requires_root d p.world && true) p
                ∙ ap (λ b. if b && true then p.logs ++ desc ∷ [] else p.logs) r)
            | inr r ↦
                subst
                  (λ b.
                    ((install_all i desc ds b (attempt i desc d false p)).1.logs ≡ p.logs)
                    ⊎ ((install_all i desc ds b (attempt i desc d false p)).1.logs
                        ≡ p.logs ++ desc ∷ []))
                  (sym r)
                  (subst
                    (λ l.
                      ((install_all i desc ds false (attempt i desc d false p)).1.logs ≡ l)
                      ⊎ ((install_all i desc ds false (attempt i desc d false p)).1.logs
                          ≡ l ++ desc ∷ []))
                    (announce-logs i desc (i.requires_root d p.world && true) p
                      ∙ ap (λ b. if b && true then p.logs ++ desc ∷ [] else p.logs) r)
                    (logs-install_all desc ds (attempt i desc d false p)))
          ])
  ]

  -- `installOptional` logs the description of its group once at most, and nothing else.
  logs-install_optional :
      (g : Group i) (p : Progress i)
      → ((install_optional i g p).1.logs ≡ p.logs)
        ⊎ ((install_optional i g p).1.logs ≡ p.logs ++ g.desc ∷ [])
  unfolding install_optional
  logs-install_optional g p = logs-install_all g.desc g.deps p

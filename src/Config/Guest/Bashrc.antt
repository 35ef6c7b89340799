-- ===== src/Config/Guest/Bashrc.antt =====
-- What `updateEnvironment` leaves in .bashrc.
use mathlib.Core.Path.{subst}
use text.Mathlib.TextLemmas.{append_assoc, append-nil}
use finch.Prelude.{
  String, ◌<>◌, Bool, true, false, List, [], ◌∷◌, Option, none, some, ◌≡◌, refl, sym, ap, ◌∙◌, ok,
  ok_inj, context, context-eq_ok, if◌then◌else◌,
}
use finch.Prelude.Act.{
  Act, pure, look, described, bind-inv, continue-inv, described-inv, pure-inv, ◌>>=◌, ◌>>◌,
}
use finch.Text.{contains_text}
use finch.Text.Contains.{contains_text-append, contains_text-appended}
use finch.Config.Types.{Finch}
use finch.Config.Guest.{
  GuestHost, deref, add_line_to_bashrc, add_lines, bashrc_of, update_environment,
}
use finch.Config.Guest.Lines.{env_lines}

abbrev pub AllContained : String → List String → Type 0
AllContained text [] = Unit
AllContained text (c ∷ cs) = (contains_text text c ≡ true) × AllContained text cs

-- The second text is the first with more behind it.
abbrev pub IsExtension : String → String → Type 0
IsExtension old new = (x : String) × (new ≡ old <> x)

contains_text-IsExtension :
    (old new c : String)
    → IsExtension old new
    → contains_text old c ≡ true
    → contains_text new c ≡ true
contains_text-IsExtension old new c (x, e) h =
    ap (λ t. contains_text t c) e ∙ contains_text-append old x c h

module _ (h : GuestHost) where
  -- What the file system documents: what was written is read.
  pub record IsWritable : Type 0 where
    pub write-reads :
        (path text : String) (w w' : h.World)
        → h.write_file path text w ≡ (ok tt, w')
        → h.read_file path w' ≡ ok text

  -- The file at the path has the text.
  abbrev Has : String → String → h.World → Type 0
  Has path text w = h.read_file path w ≡ ok text

  deref-some : (o : Option String) (t : String) → deref o ≡ ok t → o ≡ some t
  deref-some none t h = cc
  deref-some (some s) t h = ap some (ok_inj s t h)

  module _ (k : IsWritable) (path : String) where
    -- The file has a text that extends the one before and contains the line.
    abbrev Added : String → String → String → h.World → Type 0
    Added prof cmd p w = Has path p w × IsExtension prof p × (contains_text p cmd ≡ true)

    moved :
        (P : String → h.World → Type 0) (p q : String) (w w' : h.World)
        → pure p w ≡ (ok q, w')
        → P p w
        → P q w'
    moved P p q w w' e g =
        let (pe, we) = pure-inv p q w w' e in subst (λ t. P t w') pe (subst (P p) we g)

    add_line_to_bashrc-ok :
        (prof cmd p : String) (w w' : h.World)
        → Has path prof w
        → add_line_to_bashrc h path prof cmd w ≡ (ok p, w')
        → Added prof cmd p w'
    unfolding add_line_to_bashrc
    add_line_to_bashrc-ok prof cmd p w w' r e = go (contains_text prof cmd) refl e
      where
        longer : String
        longer = prof <> ("\n" <> cmd)

        write : Act h.World (Unit {0})
        write = described "failed to write to profile file" (h.write_file path longer)

        there : contains_text longer cmd ≡ true
        there =
            ap (λ t. contains_text t cmd) (sym (append_assoc prof "\n" cmd))
            ∙ contains_text-appended (prof <> "\n") cmd

        go :
            (b : Bool)
            → contains_text prof cmd ≡ b
            → (if b then pure prof else write >> pure longer) w ≡ (ok p, w')
            → Added prof cmd p w'
        go true c e = moved (Added prof cmd) prof p w w' e (r, ("", sym (append-nil prof)), c)
        go false c e =
            let (u, v, m, q) = bind-inv write (λ u. pure longer) w w' p e in
            moved (Added prof cmd) longer p v w' q (
              k.write-reads path longer w v (
                  described-inv "failed to write to profile file" (h.write_file path longer) w v tt
                    m),
              ("\n" <> cmd, refl),
              there,
            )

    add_lines-ok :
        (cs : List String) (prof p : String) (w w' : h.World)
        → Has path prof w
        → add_lines h path prof cs w ≡ (ok p, w')
        → Has path p w' × IsExtension prof p × AllContained p cs
    unfolding add_lines
    add_lines-ok [] prof p w w' r e =
        moved (λ q v. Has path q v × IsExtension prof q × Unit) prof p w w' e
          (r, ("", sym (append-nil prof)), tt)
    add_lines-ok (c ∷ cs) prof p w w' r e =
        let (q, v, m, n) =
          bind-inv (add_line_to_bashrc h path prof c) (λ q. add_lines h path q cs) w w' p e in
        let (rq, (x, xe), cq) = add_line_to_bashrc-ok prof c q w v r m in
        let (rp, (y, ye), all) = add_lines-ok cs q p v w' rq n in
        (
          rp,
          (x <> y, ye ∙ ap (λ t. t <> y) xe ∙ append_assoc prof x y),
          (contains_text-IsExtension q p c (y, ye) cq, all),
        )

    add_lines_of_contained :
        (cs : List String) (p : String) (w : h.World)
        → AllContained p cs
        → add_lines h path p cs w ≡ (ok p, w)
    unfolding add_lines add_line_to_bashrc
    add_lines_of_contained [] p w a = refl
    add_lines_of_contained (c ∷ cs) p w (e, a) = rw e (add_lines_of_contained cs p w a)

  module _ (k : IsWritable) (fc : Finch) (finch_dir home_dir lima_home : String) where
    abbrev bashrc : String
    bashrc = bashrc_of h lima_home

    abbrev lines : String → List String
    lines t = env_lines t fc.creds_helpers finch_dir home_dir lima_home

    abbrev read_bashrc : Act h.World String
    read_bashrc =
        described ("failed to read config file " <> bashrc_of h lima_home)
          (look (h.read_file (bashrc_of h lima_home)))

    update_environment-inv :
        (w w' : h.World)
        → update_environment h fc finch_dir home_dir lima_home w ≡ (ok tt, w')
        → (t old new : String) × (fc.vm_type ≡ some t)
          × (h.read_file (bashrc_of h lima_home) w ≡ ok old)
          × (add_lines h
                (bashrc_of h lima_home)
                old
                (env_lines t fc.creds_helpers finch_dir home_dir lima_home)
                w
              ≡ (ok new, w'))
    unfolding update_environment
    update_environment-inv w w' e =
        let (t, vm, n1) =
          continue-inv (deref fc.vm_type)
            (λ t. read_bashrc >>= λ prof. add_lines h bashrc prof (lines t) >> pure tt) w w' tt e in
        let (old, r, n2) =
          continue-inv (context ("failed to read config file " <> bashrc) (h.read_file bashrc w))
            (λ prof. add_lines h bashrc prof (lines t) >> pure tt) w w' tt n1 in
        let (new, w3, m3, n3) =
          bind-inv (add_lines h bashrc old (lines t)) (λ p. pure tt) w w' tt n2 in
        (
          t,
          old,
          new,
          deref-some fc.vm_type t vm,
          context-eq_ok ("failed to read config file " <> bashrc) (h.read_file bashrc w) old r,
          subst (λ v. add_lines h bashrc old (lines t) w ≡ (ok new, v)) (pure-inv tt tt w3 w' n3).1
              m3,
        )

    -- Where `updateEnvironment` succeeds, .bashrc has its old text with more behind it, and contains
    -- every line that the configuration asks for.
    pub update_environment-AllContained :
        (w w' : h.World)
        → update_environment h fc finch_dir home_dir lima_home w ≡ (ok tt, w')
        → (t old new : String) × (fc.vm_type ≡ some t)
          × (h.read_file (bashrc_of h lima_home) w ≡ ok old)
          × (h.read_file (bashrc_of h lima_home) w' ≡ ok new)
          × IsExtension old new
          × AllContained new (env_lines t fc.creds_helpers finch_dir home_dir lima_home)
    update_environment-AllContained w w' e =
        let (t, old, new, vm, r, a) = update_environment-inv w w' e in
        let (r', x, all) = add_lines-ok k bashrc (lines t) old new w w' r a in
        (t, old, new, vm, r, r', x, all)

    -- A second `updateEnvironment` after one that succeeded writes nothing.
    pub update_environment_twice :
        (w w' : h.World)
        → update_environment h fc finch_dir home_dir lima_home w ≡ (ok tt, w')
        → update_environment h fc finch_dir home_dir lima_home w' ≡ (ok tt, w')
    unfolding update_environment
    update_environment_twice w w' e =
        let (t, old, new, vm, r, r', x, all) = update_environment-AllContained w w' e in
        rw (vm, r', add_lines_of_contained k bashrc (lines t) new w' all) refl

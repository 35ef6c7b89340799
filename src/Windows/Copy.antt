-- ===== src/Windows/Copy.antt =====
-- `cpHandler`, as a relation between the arguments and what it makes of them.
use finch.Prelude.{
  String, Bool, true, false, List, [], ◌∷◌, ◌≡◌, refl, ap, ◌↔◌, Bool-cases, inl, inr, arith, ok,
  ◌>>=◌, bind-eq_ok, ok_inj,
}
use mathlib.Core.Path.{subst}
use finch.Nerdctl.Handlers.{Command}
use finch.Windows.Paths.{WinDeps, convert_to_wsl_path}
use finch.Windows.Commands.{is_no_host_path, cp_argument, cp_arguments, cp_handler}
use finch.Windows.HostPaths.{Stays, Stays-is_no_host_path, is_no_host_path-Stays}

-- Each path of the host is converted; what is a flag, the name `cp` or a path of a container stays.
pub data Copied (w : WinDeps) : List String → List String → Type 0 where
  done : Copied w [] []
  kept :
      {a : String} {args out : List String}
      → Stays a
      → Copied w args out
      → Copied w (a ∷ args) (a ∷ out)
  converted :
      {a p : String} {args out : List String}
      → ¬ Stays a
      → convert_to_wsl_path w a ≡ ok p
      → Copied w args out
      → Copied w (a ∷ args) (p ∷ out)

module _ (w : WinDeps) where
  Copied-cons :
      (a p : String) (args out : List String)
      → cp_argument w a ≡ ok p
      → Copied w args out
      → Copied w (a ∷ args) (p ∷ out)
  unfolding cp_argument
  Copied-cons a p args out e c = elim (Bool-cases (is_no_host_path a)) [
    | inl t ↦
        subst (λ q. Copied w (a ∷ args) (q ∷ out)) (ok_inj a p (keep t))
          (kept (is_no_host_path-Stays a t) c)
    | inr f ↦ converted (λ s. cc (f, Stays-is_no_host_path a s)) (convert f) c
  ]
    where
      keep : is_no_host_path a ≡ true → ok a ≡ ok p
      keep t = ground (arith, e)

      convert : is_no_host_path a ≡ false → convert_to_wsl_path w a ≡ ok p
      convert f = ground (arith, e)

  Copied-cp_arguments : (args out : List String) → cp_arguments w args ≡ ok out → Copied w args out
  unfolding cp_arguments
  Copied-cp_arguments [] out e = subst (Copied w []) (ok_inj [] out e) done
  Copied-cp_arguments (a ∷ args) out e =
      let (p, ea, e1) =
        bind-eq_ok (cp_argument w a) (λ p. cp_arguments w args >>= λ o. ok (p ∷ o)) out e in
      let (o, eo, e2) = bind-eq_ok (cp_arguments w args) (λ o. ok (p ∷ o)) out e1 in
      subst (Copied w (a ∷ args)) (ok_inj (p ∷ o) out e2)
        (Copied-cons a p args o ea (Copied-cp_arguments args o eo))

  is_host_path : (a : String) → ¬ Stays a → is_no_host_path a ≡ false
  is_host_path a n = elim (Bool-cases (is_no_host_path a)) [
    | inl t ↦ absurd (n (is_no_host_path-Stays a t))
    | inr f ↦ f
  ]

  pub cp_arguments-Copied :
      (args out : List String) → Copied w args out → cp_arguments w args ≡ ok out
  unfolding cp_arguments cp_argument
  cp_arguments-Copied [] [] done = refl
  cp_arguments-Copied [] (b ∷ out) c = elim c [ ]
  cp_arguments-Copied (a ∷ args) [] c = elim c [ ]
  cp_arguments-Copied (a ∷ args) (a' ∷ out) (kept t c) =
      rw (Stays-is_no_host_path a t, cp_arguments-Copied args out c) refl
  cp_arguments-Copied (a ∷ args) (p ∷ out) (converted n e c) =
      rw (is_host_path a n, e, cp_arguments-Copied args out c) refl

  -- `cpHandler` succeeds exactly where every path of the host can be converted, and changes these
  -- paths only: the number and the order of the arguments, and all else of the command, stay.
  pub cp_handler_iff :
      (docker_compat : Bool) (c : Command) (out : List String)
      → (cp_handler w docker_compat c ≡ ok (record c { args = out })) ↔ Copied w c.args out
  unfolding cp_handler
  cp_handler_iff docker_compat c out = (there, back)
    where
      there : cp_handler w docker_compat c ≡ ok (record c { args = out }) → Copied w c.args out
      there e =
          let (o, eo, e') =
            bind-eq_ok (cp_arguments w c.args) (λ o. ok (record c { args = o }))
              (record c { args = out }) e in
          subst (Copied w c.args)
            (ap (λ (x : Command). x.args)
              (ok_inj (record c { args = o }) (record c { args = out }) e'))
            (Copied-cp_arguments c.args o eo)

      back : Copied w c.args out → cp_handler w docker_compat c ≡ ok (record c { args = out })
      back t = rw (cp_arguments-Copied c.args out t) refl

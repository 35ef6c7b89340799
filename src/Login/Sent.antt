-- ===== src/Login/Sent.antt =====
-- What `finch login` hands to nerdctl's library.
use mathlib.Core.Path.{subst}
use finch.Prelude.{
  String, ◌<>◌, Bool, true, false, ◌==◌, List, [], ◌∷◌, ◌≡◌, ◌⊎◌, inl, inr, refl, sym, ap, ◌∙◌,
  Result, ok, err, message, ok_inj, if◌then◌else◌,
}
use finch.Prelude.Act.{Act, raise, pure, ◌>>=◌, ◌>>◌, bind-inv, pure-inv}
use finch.Text.{has_char, has_suffix, trim_suffix}
use finch.Text.FilePath.{join_path}
use finch.Text.Suffix.{slice_to-before, has_suffix-append}
use finch.Credserver.Lookup.{LookupHost, ensure_config_exists}
use finch.Login.{
  LoginFlags, LoginOptions, LoginReply, LoginHost, server_of, without_line_end, config_there,
  typed_password, one_password, insecure, without_colons, login_options, show_reply, log_in,
  login_action,
}

trim_suffix-append : (s t : String) → trim_suffix (s <> t) t ≡ s
unfolding trim_suffix
trim_suffix-append s t = rw (has_suffix-append s t) (slice_to-before s t)

trim_suffix-absent : (s t : String) → has_suffix s t ≡ false → trim_suffix s t ≡ s
unfolding trim_suffix
trim_suffix-absent s t h = rw h refl

-- A password that ends neither in a line feed nor in a carriage return is what is left of its line,
-- whether the line has no end, the end of Unix, or the one of Windows.
without_line_end-line :
    (p : String)
    → has_suffix p "\n" ≡ false
    → has_suffix p "\r" ≡ false
    → (without_line_end p ≡ p)
      × (without_line_end (p <> "\n") ≡ p)
      × (without_line_end ((p <> "\r") <> "\n") ≡ p)
unfolding without_line_end
without_line_end-line p f r = (
  cut p (trim_suffix-absent p "\n" f) ∙ bare,
  cut (p <> "\n") (trim_suffix-append p "\n") ∙ bare,
  cut ((p <> "\r") <> "\n") (trim_suffix-append (p <> "\r") "\n") ∙ trim_suffix-append p "\r",
)
  where
    cut :
        (s : String) {t : String} → trim_suffix s "\n" ≡ t → without_line_end s ≡ trim_suffix t "\r"
    cut s e = ap (λ t. trim_suffix t "\r") e

    bare : trim_suffix p "\r" ≡ p
    bare = trim_suffix-absent p "\r" r

module _ (c : LookupHost) (h : LoginHost c) where
  -- The password is the flag's, or a line that was read while the flag was empty.
  abbrev pub IsPassword : LoginFlags → c.World → c.World → String → Type 0
  IsPassword f w w' p =
      ((f.password_stdin ≡ false) × (p ≡ f.password))
      ⊎ ((f.password_stdin ≡ true)
          × ((f.password == "") ≡ true)
          × ((f.username == "") ≡ false)
          × ((contents : String) × (h.read_stdin w ≡ (ok contents, w'))
              × (p ≡ without_line_end contents)))

  one_password-inv :
      (f : LoginFlags) (w w' : c.World) (u : Unit {0})
      → one_password c h f w ≡ (ok u, w')
      → (((f.password == "") ≡ true) × (w ≡ w')) ⊎ (f.password_stdin ≡ false)
  one_password-inv f w w' u e = go (f.password == "") f.password_stdin refl refl e
    where
      refused : Result (Unit {0})
      refused = err (message "--password and --password-stdin are mutually exclusive")

      go :
          (b d : Bool)
          → (f.password == "") ≡ b
          → f.password_stdin ≡ d
          → ◌≡◌ {A = Result (Unit {0}) × c.World}
              (if b then (ok tt, w) else (if d then refused else ok tt, h.log (insecure c h) w))
              (ok u, w')
          → (((f.password == "") ≡ true) × (w ≡ w')) ⊎ (f.password_stdin ≡ false)
      go true d p q e = inl (p, ap (λ x. x.1) e)
      go false false p q e = inr q
      go false true p q e = cc

  typed_password-inv :
      (f : LoginFlags) (v w w' : c.World) (p : String)
      → (((f.password == "") ≡ true) × (v ≡ w)) ⊎ (f.password_stdin ≡ false)
      → typed_password c h f w ≡ (ok p, w')
      → IsPassword f v w' p
  typed_password-inv f v w w' p one e = go f.password_stdin (f.username == "") refl refl e
    where
      line : Act c.World String
      line = h.read_stdin >>= λ contents. pure (without_line_end contents)

      nobody : Result String
      nobody = err (message "must provide --username with --password-stdin")

      empty : f.password_stdin ≡ true → ((f.password == "") ≡ true) × (v ≡ w)
      empty on = elim one [ inl n ↦ n | inr off ↦ cc (on, off) ]

      go :
          (b d : Bool)
          → f.password_stdin ≡ b
          → (f.username == "") ≡ d
          → (if b then (if d then (nobody, w) else line w) else (ok f.password, w)) ≡ (ok p, w')
          → IsPassword f v w' p
      go false d on named e = inl (on, sym (ok_inj f.password p (ap (λ x. x.0) e)))
      go true true on named e = cc
      go true false on named e =
          let (contents, v', r, k) = bind-inv h.read_stdin _ w w' p e in
          let (same, left) = pure-inv (without_line_end contents) p v' w' k in
          let (none, start) = empty on in
          inr (
            on,
            none,
            named,
            (contents, ap h.read_stdin start ∙ r ∙ ap (λ x. (ok contents, x)) left, sym same),
          )

  without_colons-inv :
      (f : LoginFlags) (u : Unit {0}) → without_colons c h f ≡ ok u → has_char f.username 58 ≡ false
  without_colons-inv f u e = go (has_char f.username 58) e
    where
      colons : Result (Unit {0})
      colons = err (message "username cannot contain colons")

      go : (b : Bool) → (if b then colons else ok tt) ≡ ok u → b ≡ false
      go false e = refl
      go true e = cc

  abbrev pub options_of : LoginFlags → String → LoginOptions
  options_of f password = record {
    namespace = f.namespace;
    server_address = "";
    username = f.username;
    password = password;
  }

  login_options-inv :
      (f : LoginFlags) (w w' : c.World) (o : LoginOptions)
      → login_options c h f w ≡ (ok o, w')
      → (has_char f.username 58 ≡ false)
        × ((password : String) × IsPassword f w w' password × (options_of f password ≡ o))
  unfolding login_options
  login_options-inv f w w' o e =
      let (p, w3, a, b) = bind-inv (checked >> typed_password c h f) _ w w' o e in
      let (u, w2, d, k) = bind-inv checked _ w w3 p a in
      let (u', w1, r, s) = bind-inv (raise (without_colons c h f)) _ w w2 u d in
      let (same, left) = pure-inv (options_of f p) o w3 w' b in
      let one = one_password-inv f w1 w2 u s in
      (
        without_colons-inv f u' (ap (λ x. x.0) r),
        (
          p,
          subst (λ x. IsPassword f x w' p) (sym (ap (λ x. x.1) r))
              (subst (λ x. IsPassword f w1 x p) left (typed_password-inv f w1 w2 w3 p one k)),
          same,
        ),
      )
    where
      checked : Act c.World (Unit {0})
      checked = raise (without_colons c h f) >> one_password c h f

  show_reply-inv :
      (r : LoginReply) (w w' : c.World) (u : Unit {0})
      → show_reply c h r w ≡ (ok u, w')
      → r.result ≡ ok tt
  show_reply-inv r w w' u e =
      let (text, w1, a, b) = bind-inv (h.read_pipe r) _ w w' u e in ap (λ x. x.0) b

  -- What a successful login does, one call after the other: the configuration, the options, the
  -- pipe, and `Login` with the user's name, the address of the server and one password.
  abbrev pub Sent : LoginFlags → List String → c.World → c.World → Type 0
  Sent f args w w' =
      (has_char f.username 58 ≡ false)
      × ((home password : String) × (w1 w2 w3 : c.World) × (c.home_dir ≡ ok home)
          × (ensure_config_exists c (join_path (home ∷ ".finch" ∷ [])) w ≡ (ok tt, w1))
          × IsPassword f w1 w2 password
          × (h.open_pipe w2 ≡ (ok tt, w3))
          × (let (r, w4) =
                h.login (record (options_of f password) { server_address = server_of args }) w3 in
              (r.result ≡ ok tt) × (show_reply c h r w4 ≡ (ok tt, w'))))

  -- Where `finch login` reports no error, the configuration was there first, and nerdctl's `Login`
  -- took the name, which has no colon, the server, and the password of the flag or, where that is
  -- empty, of the standard input without the end of its line.
  pub login_action-Sent :
      (f : LoginFlags) (args : List String) (w w' : c.World)
      → login_action c h f args w ≡ (ok tt, w')
      → Sent f args w w'
  unfolding login_action
  login_action-Sent f args w w' e =
      let (o, w2, a, b) = bind-inv (config_there c h >> login_options c h f) _ w w' tt e in
      let (u, w1, d, k) = bind-inv (config_there c h) _ w w2 o a in
      let (home, v, r, there) = bind-inv (raise c.home_dir) _ w w1 u d in
      let (plain, (password, p, q)) = login_options-inv f w1 w2 o k in
      let (u', w3, x, y) = bind-inv h.open_pipe _ w2 w' tt b in
      let sent = ap (λ o. log_in c h (record o { server_address = server_of args }) w3) q ∙ y in
      (
        plain,
        (
          home,
          password,
          w1,
          w2,
          w3,
          ap (λ z. z.0) r,
          ap (ensure_config_exists c (join_path (home ∷ ".finch" ∷ []))) (ap (λ z. z.1) r) ∙ there,
          p,
          x,
          (show_reply-inv _ _ w' tt sent, sent),
        ),
      )

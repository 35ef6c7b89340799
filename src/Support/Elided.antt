-- ===== src/Support/Elided.antt =====
-- What the redaction replaces in a line, as a list of patterns in their order.
use finch.Prelude.{
  String, ◌==◌, List, [], ◌∷◌, ◌≡◌, refl, if◌then◌else◌, Result, ok, err, panicked, bind-eq_ok,
  ◌>>=◌,
}
use finch.Text.{replace_byte}
use finch.Support.{BundleHost}
use finch.Support.Redact.{
  must, redact_line, redact_finch_install, redact_username, redact_network_addresses, redact_ports,
  redact_ssh_keys,
}

module _ (h : BundleHost) where
  -- The path of the installation with forward slashes, the user's name, addresses, ports and keys.
  abbrev install_pattern : String × String
  install_pattern = (
    if h.goos == "windows" then replace_byte h.finch_path b'\\' "/" else h.finch_path,
    "<finch-install-location-elided>",
  )

  abbrev user_pattern : String × String
  user_pattern = (h.lima_user, "<username-elided>")

  abbrev ipv4_pattern : String × String
  ipv4_pattern = ("(?:[0-9]{1,3}\\.){3}[0-9]{1,3}(:[0-9]{1,5})?", "<ip-address-elided>")

  abbrev ipv6_pattern : String × String
  ipv6_pattern = ("(?:[A-F0-9]{1,4}:){7}[A-F0-9]{1,4}", "<ip-address-elided>")

  abbrev mac_pattern : String × String
  mac_pattern = ("([0-9A-Fa-f]{2}[:-]){5}([0-9A-Fa-f]{2})", "<mac-address-elided>")

  abbrev non_empty_pattern : String × String
  non_empty_pattern = ("('\\[' -n )[0-9]{1,5}( ']')", "$1<port-elided>$2")

  abbrev non_zero_pattern : String × String
  non_zero_pattern = ("('\\[' )[0-9]{1,5}( -ne 0 ']')", "$1<port-elided>$2")

  abbrev ssh_command_pattern : String × String
  ssh_command_pattern = ("(\\[ssh -F .* -p )[0-9]{1,5}(.*])", "$1<port-elided>$2")

  abbrev status_pattern : String × String
  status_pattern = ("([{,]\"sshLocalPort\":)[0-9]{1,5}(})", "$1<port-elided>$2")

  abbrev port_pattern : String × String
  port_pattern = ("(port )[0-9]{1,5}", "$1<port-elided>")

  abbrev ecdsa_pattern : String × String
  ecdsa_pattern = ("ecdsa-sha2-nistp256 .* root@lima-finch", "<key-elided>")

  abbrev ed25519_pattern : String × String
  ed25519_pattern = ("ssh-ed25519 .* root@lima-finch", "<key-elided>")

  abbrev rsa_pattern : String × String
  rsa_pattern = ("ssh-rsa .* root@lima-finch", "<key-elided>")

  abbrev pub elisions : List (String × String)
  elisions =
      install_pattern ∷ user_pattern ∷ ipv4_pattern ∷ ipv6_pattern ∷ mac_pattern ∷ non_empty_pattern
      ∷ non_zero_pattern ∷ ssh_command_pattern ∷ status_pattern ∷ port_pattern ∷ ecdsa_pattern
      ∷ ed25519_pattern ∷ rsa_pattern ∷ []

  -- `t` is `l` after each pattern in turn was replaced.
  abbrev pub Replaced : List (String × String) → String → String → Type 0
  Replaced [] l t = l ≡ t
  Replaced ((pattern, replacement) ∷ ps) l t =
      (m : String) × (h.replace_all pattern replacement l ≡ ok m) × Replaced ps m t

  must-eq_ok : (r : Result String) (m : String) → must h r ≡ ok m → r ≡ ok m
  must-eq_ok (ok s) m e = e
  must-eq_ok (err x) m e = cc
  must-eq_ok panicked m e = cc

  elided : String × String → String → Result String
  elided (p, q) l = h.replace_all p q l

  must_elided : String × String → String → Result String
  must_elided p l = must h (elided p l)

  three-inv :
      (p q r : String × String) (l t : String)
      → (must_elided p l >>= must_elided q >>= must_elided r) ≡ ok t
      → (a b : String) × (elided p l ≡ ok a) × (elided q a ≡ ok b) × (elided r b ≡ ok t)
  unfolding must_elided elided
  three-inv p q r l t e =
      let (b, k, z) = bind-eq_ok (must_elided p l >>= must_elided q) (must_elided r) t e in
      let (a, x, y) = bind-eq_ok (must_elided p l) (must_elided q) b k in
      (a, b, must-eq_ok _ a x, must-eq_ok _ b y, must-eq_ok _ t z)

  five-inv :
      (p q r u v : String × String) (l t : String)
      → (must_elided p l >>= must_elided q >>= must_elided r >>= must_elided u >>= must_elided v)
        ≡ ok t
      → (a b c d : String) × (elided p l ≡ ok a)
        × (elided q a ≡ ok b)
        × (elided r b ≡ ok c)
        × (elided u c ≡ ok d)
        × (elided v d ≡ ok t)
  unfolding must_elided elided
  five-inv p q r u v l t e =
      let (d, k, z) =
        bind-eq_ok (must_elided p l >>= must_elided q >>= must_elided r >>= must_elided u)
          (must_elided v) t e in
      let (c, k', y) =
        bind-eq_ok (must_elided p l >>= must_elided q >>= must_elided r) (must_elided u) d k in
      let (a, b, x1, x2, x3) = three-inv p q r l c k' in
      (a, b, c, d, x1, x2, x3, must-eq_ok _ d y, must-eq_ok _ t z)

  -- A line that was redacted has every pattern replaced.
  pub redact_line-Replaced : (l t : String) → redact_line h l ≡ ok t → Replaced elisions l t
  unfolding redact_line elided must_elided
  redact_line-Replaced l t e =
      let (d, e4, s) =
        bind-eq_ok
          (redact_finch_install h l
            >>= redact_username h h.lima_user
            >>= redact_network_addresses h
            >>= redact_ports h)
          (redact_ssh_keys h) t e in
      let (c, e3, p) =
        bind-eq_ok
          (redact_finch_install h l
            >>= redact_username h h.lima_user
            >>= redact_network_addresses h)
          (redact_ports h) d e4 in
      let (b, e2, n) =
        bind-eq_ok (redact_finch_install h l >>= redact_username h h.lima_user)
          (redact_network_addresses h) c e3 in
      let (a, e1, u) = bind-eq_ok (redact_finch_install h l) (redact_username h h.lima_user) b e2 in
      let (n1, n2, x1, x2, x3) = three-inv ipv4_pattern ipv6_pattern mac_pattern b c n in
      let (p1, p2, p3, p4, y1, y2, y3, y4, y5) =
        five-inv non_empty_pattern non_zero_pattern ssh_command_pattern status_pattern port_pattern
          c d p in
      let (s1, s2, z1, z2, z3) = three-inv ecdsa_pattern ed25519_pattern rsa_pattern d t s in
      (
        a,
        e1,
        (
          b,
          u,
          (
            n1,
            x1,
            (
              n2,
              x2,
              (
                c,
                x3,
                (p1, y1, (p2, y2, (p3, y3, (p4, y4, (d, y5, (s1, z1, (s2, z2, (t, z3, refl)))))))),
              ),
            ),
          ),
        ),
      )

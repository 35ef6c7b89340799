-- ===== src/Windows/Convert.antt =====
-- Where the paths of Windows are found inside WSL.
use Prim.Native.Char.{Char}
use text.Mathlib.TextLemmas.{cons-append, nil-append}
use finch.Prelude.{
  String, ◌<>◌, true, false, List, [], ◌∷◌, ◌≡◌, refl, sym, ap, ◌∙◌, arith, ok, ◌==◌,
}
use finch.Text.{join, slice_from, slice_to, has_prefix, has_char, replace_byte}
use finch.Text.Case.{to_lower, to_upper, lower, to_lower-one}
use finch.Text.Laws.{one-append}
use finch.Windows.Paths.{WinDeps, to_slash, wsl_path, convert_to_wsl_path}
use finch.Windows.Names.{is_name, AllNames, drive_path, IsWindows, replace_byte-join}

-- Where WSL mounts the names of a drive.
abbrev pub mount_path : String → List String → String
mount_path drive cs = String.◌∷◌ "/" (join "/" ("mnt" ∷ (drive ∷ cs)))

is_name-no_backslash : (c : String) → is_name c ≡ true → has_char c b'\\' ≡ false
unfolding is_name
is_name-no_backslash c h = ground arith

is_name-no_slash : (c : String) → is_name c ≡ true → has_char c b'/' ≡ false
unfolding is_name
is_name-no_slash c h = ground arith

is_name-mnt : is_name "mnt" ≡ true
unfolding is_name ◌==◌
is_name-mnt = refl

to_slash-join :
    (cs : List String)
    → AllNames cs
    → to_slash ("\\" <> join "\\" cs) ≡ String.◌∷◌ "/" (join "/" cs)
unfolding to_slash replace_byte
to_slash-join cs u =
    ap (λ s. replace_byte s b'\\' "/")
      (cons-append "\\" "" (join "\\" cs) ∙ ap (String.◌∷◌ "\\") (nil-append (join "\\" cs)))
    ∙ ap (String.◌∷◌ "/") (replace_byte-join cs "\\" "/" is_name-no_backslash u)

-- The way back: the path of Windows that a path below /mnt stands for.
unfoldable pub windows_of : String → String
windows_of path =
    to_upper (slice_to 1 (slice_from 5 path))
    <> (":\\" <> replace_byte (slice_from 7 path) b'/' "\\")

three-append :
    (a b c e : Char) (s : String)
    → String.◌∷◌ a (String.◌∷◌ b (String.◌∷◌ c "")) <> (String.◌∷◌ e "" <> s)
      ≡ String.◌∷◌ a (String.◌∷◌ b (String.◌∷◌ c (String.◌∷◌ e s)))
three-append a b c e s = simp (cons-append, nil-append)

mount_path-cons :
    (l : Char) (cs : List String)
    → mount_path (String.◌∷◌ l "") cs
      ≡ String.◌∷◌ "/" (
          String.◌∷◌ "m"
            (String.◌∷◌ "n" (String.◌∷◌ "t" (String.◌∷◌ "/" (join "/" (String.◌∷◌ l "" ∷ cs))))))
unfolding join
mount_path-cons l cs =
    ap (String.◌∷◌ "/") (three-append "m" "n" "t" "/" (join "/" (String.◌∷◌ l "" ∷ cs)))

drive-append :
    (d : Char) (s : String)
    → String.◌∷◌ d "" <> (":\\" <> s) ≡ String.◌∷◌ d (String.◌∷◌ ":" (String.◌∷◌ "\\" s))
drive-append d s =
    cons-append d "" (":\\" <> s)
    ∙ ap (String.◌∷◌ d)
        (nil-append (":\\" <> s) ∙ cons-append ":" "\\" s ∙ ap (String.◌∷◌ ":") (one-append "\\" s))

names_back : (cs : List String) → AllNames cs → replace_byte (join "/" cs) b'/' "\\" ≡ join "\\" cs
names_back cs u = replace_byte-join cs "/" "\\" is_name-no_slash u

windows_of-mount_path :
    (l : Char) (cs : List String)
    → AllNames cs
    → windows_of (mount_path (String.◌∷◌ l "") cs)
      ≡ to_upper (String.◌∷◌ l "") <> (":\\" <> join "\\" cs)
unfolding windows_of slice_from slice_to join replace_byte
windows_of-mount_path l cs u = rw (mount_path-cons l cs) (go cs u)
  where
    front :
        (c : String) (cs : List String)
        → join "/" (String.◌∷◌ l "" ∷ (c ∷ cs)) ≡ String.◌∷◌ l (String.◌∷◌ "/" (join "/" (c ∷ cs)))
    front c cs =
        one-append l ("/" <> join "/" (c ∷ cs))
        ∙ ap (String.◌∷◌ l) (one-append "/" (join "/" (c ∷ cs)))

    go :
        (cs : List String)
        → AllNames cs
        → to_upper (slice_to 1 (join "/" (String.◌∷◌ l "" ∷ cs)))
            <> (":\\" <> replace_byte (slice_from 2 (join "/" (String.◌∷◌ l "" ∷ cs))) b'/' "\\")
          ≡ to_upper (String.◌∷◌ l "") <> (":\\" <> join "\\" cs)
    go [] u = refl
    go (c ∷ cs) u = rw (front c cs, names_back (c ∷ cs) u) refl

module _ (w : WinDeps) (law : IsWindows w) (d : Char) (cs : List String) (u : AllNames cs)
    (p : is_name (String.◌∷◌ d "") ≡ true) (q : is_name (to_lower (String.◌∷◌ d "")) ≡ true) where
  wsl_path-drive_path : wsl_path w (drive_path d cs) ≡ mount_path (to_lower (String.◌∷◌ d "")) cs
  unfolding wsl_path slice_from slice_to has_prefix
  wsl_path-drive_path =
      rw (law.join-names "mnt" (to_lower (String.◌∷◌ d "")) cs (is_name-mnt, (q, u)))
        (to_slash-join ("mnt" ∷ (to_lower (String.◌∷◌ d "") ∷ cs)) (is_name-mnt, (q, u)))

  -- A path of proper names on a drive is found below /mnt, under the drive's letter in lower case,
  -- with the same names in the same order.
  convert_to_wsl_path-drive_path :
      convert_to_wsl_path w (drive_path d cs) ≡ ok (mount_path (to_lower (String.◌∷◌ d "")) cs)
  unfolding convert_to_wsl_path
  convert_to_wsl_path-drive_path = rw (law.abs-drive_path d cs u p) (ap ok wsl_path-drive_path)

  -- Where the letter of the drive is in upper case, the path of Windows becomes the path below
  -- /mnt of the letter in lower case and of the names in their order, and can be read back from it.
  pub windows_of-convert_to_wsl_path :
      to_upper (to_lower (String.◌∷◌ d "")) ≡ String.◌∷◌ d ""
      → (path : String) × (convert_to_wsl_path w (drive_path d cs) ≡ ok path)
        × (path ≡ String.◌∷◌ "/" (join "/" ("mnt" ∷ (to_lower (String.◌∷◌ d "") ∷ cs))))
        × (windows_of path ≡ drive_path d cs)
  windows_of-convert_to_wsl_path e = (
    mount_path (to_lower (String.◌∷◌ d "")) cs,
    convert_to_wsl_path-drive_path,
    refl,
    ap (λ l. windows_of (mount_path l cs)) (to_lower-one d)
        ∙ windows_of-mount_path (lower d) cs u
        ∙ ap (λ l. l <> (":\\" <> join "\\" cs)) (sym (ap to_upper (to_lower-one d)) ∙ e)
        ∙ drive-append d (join "\\" cs),
  )

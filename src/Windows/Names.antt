-- ===== src/Windows/Names.antt =====
-- The paths of Windows that start with a drive, as lists of names.
use Prim.Native.Char.{Char, code}
use text.Mathlib.TextLemmas.{cons-append, nil-append}
use finch.Prelude.{
  ℕ, String, ◌<>◌, ◌==◌, Bool, true, false, not, ◌&&◌, nat_eq, List, [], ◌∷◌, ◌≡◌, refl, sym, ap,
  arith, if◌then◌else◌, ok,
}
use finch.Text.{join, has_char, replace_byte}
use finch.Windows.Paths.{WinDeps}

-- A component of a path that `Clean` leaves alone.
unfoldable pub is_name : String → Bool
unfolding has_char
is_name c =
    not (c == "")
    && not (c == ".")
    && not (c == "..")
    && not (has_char c b'\\')
    && not (has_char c b'/')

abbrev pub AllNames : List String → Type 0
AllNames [] = Unit
AllNames (c ∷ cs) = (is_name c ≡ true) × AllNames cs

-- `d:\` and the names
abbrev pub drive_path : Char → List String → String
drive_path d cs = String.◌∷◌ d (String.◌∷◌ ":" (String.◌∷◌ "\\" (join "\\" cs)))

-- What the library documents: `Abs` gives an absolute path as `Clean` leaves it, `Clean` changes no
-- path of proper names, and `Join` puts separators between its parts, leaving the empty ones out.
pub record IsWindows (w : WinDeps) : Type 0 where
  pub abs-drive_path :
      (d : Char) (cs : List String)
      → AllNames cs
      → is_name (String.◌∷◌ d "") ≡ true
      → w.file_path_abs (w.file_path_clean (drive_path d cs)) ≡ ok (drive_path d cs)
  pub join-names :
      (a b : String) (cs : List String)
      → AllNames (a ∷ (b ∷ cs))
      → w.file_path_join ("\\" ∷ a ∷ b ∷ join "\\" cs ∷ []) ≡ "\\" <> join "\\" (a ∷ (b ∷ cs))

pub replace_byte-append :
    (s t : String) (old : ℕ) (new : Char)
    → replace_byte (s <> t) old new ≡ replace_byte s old new <> replace_byte t old new
unfolding replace_byte
replace_byte-append String.[] t old new = rw (nil-append, nil-append)
replace_byte-append (String.◌∷◌ c s) t old new =
    rw (cons-append, replace_byte-append s t old new) (go (nat_eq (code c) old))
  where
    go :
        (b : Bool)
        → (if b
            then String.◌∷◌ new (replace_byte s old new <> replace_byte t old new)
            else String.◌∷◌ c (replace_byte s old new <> replace_byte t old new))
          ≡ (if b
              then String.◌∷◌ new (replace_byte s old new)
              else String.◌∷◌ c (replace_byte s old new))
            <> replace_byte t old new
    go true = sym (cons-append new (replace_byte s old new) (replace_byte t old new))
    go false = sym (cons-append c (replace_byte s old new) (replace_byte t old new))

pub replace_byte-absent :
    (s : String) (old : ℕ) (new : Char) → has_char s old ≡ false → replace_byte s old new ≡ s
unfolding replace_byte has_char
replace_byte-absent String.[] old new h = refl
replace_byte-absent (String.◌∷◌ c s) old new h = ground (arith, replace_byte-absent s old new)

replace_byte-nil : (old : ℕ) (new : Char) → replace_byte "" old new ≡ ""
unfolding replace_byte
replace_byte-nil old new = refl

replace_byte_self :
    (old new : Char) → replace_byte (String.◌∷◌ old "") (code old) new ≡ String.◌∷◌ new ""
unfolding replace_byte
replace_byte_self old new = ground arith

-- Replacing the separators of a joined text joins it with the others.
pub replace_byte-join :
    (cs : List String) (old new : Char)
    → ((c : String) → is_name c ≡ true → has_char c (code old) ≡ false)
    → AllNames cs
    → replace_byte (join (String.◌∷◌ old "") cs) (code old) new ≡ join (String.◌∷◌ new "") cs
unfolding join
replace_byte-join [] old new k u = replace_byte-nil (code old) new
replace_byte-join (c ∷ []) old new k (p, u) = replace_byte-absent c (code old) new (k c p)
replace_byte-join (c ∷ (d ∷ cs)) old new k (p, u) =
    rw
      (
        replace_byte-append,
        replace_byte-append,
        replace_byte-absent c (code old) new (k c p),
        replace_byte-join (d ∷ cs) old new k u,
      )
      (ap (λ s. c <> (s <> join (String.◌∷◌ new "") (d ∷ cs))) (replace_byte_self old new))

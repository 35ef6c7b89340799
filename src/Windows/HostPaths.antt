-- ===== src/Windows/HostPaths.antt =====
-- Which arguments of `cp` are paths of the host.
use Prim.Native.Char.{Char, code}
use text.Mathlib.TextLemmas.{cons-append, nil-append}
use finch.Prelude.{
  ℕ, ◌<◌, String, ◌<>◌, true, false, ◌≡◌, refl, sym, ap, ◌∙◌, arith, nat_eq, ◌==◌, ==_iff, ==_self,
  Bool-cases, inl, inr,
}
use mathlib.Core.Path.{subst}
use finch.Text.{len, has_prefix, has_char, cut_before, cut_after}
use finch.Text.Laws.{cut_lem, one-append}
use finch.Windows.Commands.{is_no_host_path}

-- `name:path`, with a name of two bytes or more; a single byte is a drive.
pub data Stays : String → Type 0 where
  flag : {a : String} → has_prefix a "-" ≡ true → Stays a
  name_cp : {a : String} → a ≡ "cp" → Stays a
  in_container :
      {a : String} (name path : String)
      → a ≡ name <> String.◌∷◌ ":" path
      → has_char name b':' ≡ false
      → 1 < len name
      → Stays a

cut_before-no_char : (s : String) (sep : ℕ) → has_char (cut_before s sep) sep ≡ false
unfolding cut_before has_char
cut_before-no_char String.[] sep = refl
cut_before-no_char (String.◌∷◌ c s) sep = elim (Bool-cases (nat_eq (code c) sep)) [
  | inl e ↦ rw (e, has_char) refl
  | inr e ↦ rw (e, has_char, e, cut_before-no_char s sep) refl
]

cut_before-append :
    (a b : String) (sep : Char)
    → has_char a (code sep) ≡ false
    → (has_char (a <> String.◌∷◌ sep b) (code sep) ≡ true)
      × (cut_before (a <> String.◌∷◌ sep b) (code sep) ≡ a)
unfolding cut_before has_char
cut_before-append String.[] b sep h = rw nil-append (ground arith, ground arith)
cut_before-append (String.◌∷◌ c a) b sep h =
    let (x, y) = cut_before-append a b sep rest in rw (cons-append, first) (x, ap (String.◌∷◌ c) y)
  where
    first : nat_eq (code c) (code sep) ≡ false
    first = ground arith

    rest : has_char a (code sep) ≡ false
    rest = ground arith

in_container-is_no_host_path :
    (name path : String)
    → has_char name b':' ≡ false
    → 1 < len name
    → is_no_host_path (name <> String.◌∷◌ ":" path) ≡ true
unfolding is_no_host_path
in_container-is_no_host_path name path h l =
    let (x, y) = cut_before-append name path ":" h in rw (x, y) (ground arith)

pub Stays-is_no_host_path : (a : String) → Stays a → is_no_host_path a ≡ true
unfolding is_no_host_path
Stays-is_no_host_path a (flag h) = rw h refl
Stays-is_no_host_path a (name_cp e) = ground (arith, ==_self "cp", ap (λ x. x == "cp") e)
Stays-is_no_host_path a (in_container name path e h l) =
    subst (λ x. is_no_host_path x ≡ true) (sym e) (in_container-is_no_host_path name path h l)

pub is_no_host_path-Stays : (a : String) → is_no_host_path a ≡ true → Stays a
unfolding is_no_host_path
is_no_host_path-Stays a h = elim (Bool-cases (has_prefix a "-")) [
  | inl e ↦ flag e
  | inr e ↦ elim (Bool-cases (a == "cp")) [
    | inl f ↦ name_cp (==_iff a "cp" f)
    | inr f ↦
        in_container (cut_before a b':') (cut_after a b':')
          (sym (cut_lem a ":" (colon e f))
            ∙ ap (λ s. cut_before a b':' <> s) (one-append ":" (cut_after a b':')))
          (cut_before-no_char a b':') (long e f)
  ]
]
  where
    colon : has_prefix a "-" ≡ false → (a == "cp") ≡ false → has_char a b':' ≡ true
    colon e f = ground arith

    long : has_prefix a "-" ≡ false → (a == "cp") ≡ false → 1 < len (cut_before a b':')
    long e f = ground arith

-- ===== src/Text/Suffix.antt =====
-- Suffixes, and the cut at the last separator.
use Prim.Native.Char.{Char, code}
use text.Mathlib.TextLemmas.{cons-append, nil-append}
use finch.Prelude.{
  ℕ, ◌+◌, ◌-◌, String, ◌<>◌, true, false, ◌&&◌, ◌≡◌, refl, sym, ap, ◌∙◌, Option, none, some, arith,
  nat_eq, leb, ◌==◌, ==_iff, ==_self, Bool-cases, inl, inr,
}
use finch.Text.{len, slice_from, slice_to, has_char, has_suffix, cut_last}
use finch.Text.Laws.{slice_to-append-slice_from}

len-append : (s t : String) → len (s <> t) ≡ len s + len t
unfolding len
len-append String.[] t = rw nil-append (omega arith)
len-append (String.◌∷◌ c s) t = rw cons-append (omega (arith, len-append s t))

slice_to-append : (s t : String) → slice_to (len s) (s <> t) ≡ s
unfolding len slice_to
slice_to-append String.[] t = refl
slice_to-append (String.◌∷◌ c s) t = rw cons-append (ap (String.◌∷◌ c) (slice_to-append s t))

slice_from-append : (s t : String) → slice_from (len s) (s <> t) ≡ t
unfolding len slice_from
slice_from-append String.[] t = nil-append t
slice_from-append (String.◌∷◌ c s) t = rw cons-append (slice_from-append s t)

len_before : (s t : String) → len (s <> t) - len t ≡ len s
len_before s t = omega (arith, len-append s t)

pub slice_to-before : (s t : String) → slice_to (len (s <> t) - len t) (s <> t) ≡ s
slice_to-before s t = rw (len_before s t) (slice_to-append s t)

pub slice_from-before : (s t : String) → slice_from (len (s <> t) - len t) (s <> t) ≡ t
slice_from-before s t = rw (len_before s t) (slice_from-append s t)

pub has_suffix-append : (s t : String) → has_suffix (s <> t) t ≡ true
unfolding has_suffix
has_suffix-append s t = rw (slice_from-before s t, ==_self t) fits
  where
    fits : (leb (len t) (len (s <> t)) && true) ≡ true
    fits = ground (arith, len-append s t)

pub append-has_suffix : (s t : String) → has_suffix s t ≡ true → slice_to (len s - len t) s <> t ≡ s
unfolding has_suffix
append-has_suffix s t h =
    ap (λ r. slice_to (len s - len t) s <> r) (sym (==_iff (slice_from (len s - len t) s) t same))
    ∙ slice_to-append-slice_from (len s - len t) s
  where
    same : (slice_from (len s - len t) s == t) ≡ true
    same = ground arith

pub cut_last-absent : (s : String) (sep : ℕ) → has_char s sep ≡ false → cut_last s sep ≡ none
unfolding has_char cut_last
cut_last-absent String.[] sep h = refl
cut_last-absent (String.◌∷◌ c s) sep h = rw (cut_last-absent s sep (ground arith), first) refl
  where
    first : nat_eq (code c) sep ≡ false
    first = ground arith

-- The last separator is the one with none behind it.
pub cut_last-append :
    (a b : String) (sep : Char)
    → has_char b (code sep) ≡ false
    → cut_last (a <> String.◌∷◌ sep b) (code sep) ≡ some (a, b)
unfolding cut_last
cut_last-append String.[] b sep h =
    rw (nil-append, cut_last, cut_last-absent b (code sep) h, here) refl
  where
    here : nat_eq (code sep) (code sep) ≡ true
    here = ground arith
cut_last-append (String.◌∷◌ c a) b sep h =
    rw (cons-append, cut_last, cut_last-append a b sep h) refl

-- What stands behind the last separator is the only suffix that starts with the separator.
pub has_suffix-cut_last :
    (v a b m : String) (sep : Char)
    → cut_last v (code sep) ≡ some (a, b)
    → has_char m (code sep) ≡ false
    → (m == b) ≡ false
    → has_suffix v (String.◌∷◌ sep m) ≡ false
has_suffix-cut_last v a b m sep c h e = elim (Bool-cases (has_suffix v (String.◌∷◌ sep m))) [
  | inr f ↦ f
  | inl t ↦ absurd (clash t)
]
  where
    front : String
    front = slice_to (len v - len (String.◌∷◌ sep m)) v

    same :
        has_suffix v (String.◌∷◌ sep m) ≡ true
        → ◌≡◌ {A = Option (String × String)} (some (a, b)) (some (front, m))
    same t =
        sym c
        ∙ ap (λ s. cut_last s (code sep)) (sym (append-has_suffix v (String.◌∷◌ sep m) t))
        ∙ cut_last-append front m sep h

    clash : has_suffix v (String.◌∷◌ sep m) ≡ true → ⊥
    clash t = let x : b ≡ m = cc (same t) in cc (e, ==_self m, x)

-- ===== src/Text/Laws.antt =====
-- The pieces of a text that is cut make up the text.
use Prim.Native.Char.{Char, code}
use text.Mathlib.TextEquality.{Char-path}
use text.Mathlib.TextLemmas.{cons-append, nil-append}
use finch.Prelude.{
  ℕ, zero, suc, String, ◌<>◌, true, false, ◌≡◌, refl, sym, ap, arith, nat_eq, Bool-cases, ◌∙◌, inl,
  inr,
}
use finch.Text.{len, slice_from, slice_to, has_prefix, has_char, cut_before, cut_after}

pub nat_eq→eq : (a b : ℕ) → nat_eq a b ≡ true → a ≡ b
nat_eq→eq a b h = ground arith

pub one-append : (c : Char) (s : String) → String.◌∷◌ c "" <> s ≡ String.◌∷◌ c s
one-append c s = cons-append c "" s ∙ ap (String.◌∷◌ c) (nil-append s)

pub slice_to-append-slice_from : (n : ℕ) (s : String) → slice_to n s <> slice_from n s ≡ s
unfolding slice_to slice_from
slice_to-append-slice_from zero s = nil-append s
slice_to-append-slice_from (suc n) String.[] = nil-append ""
slice_to-append-slice_from (suc n) (String.◌∷◌ c s) =
    cons-append c (slice_to n s) (slice_from n s)
    ∙ ap (String.◌∷◌ c) (slice_to-append-slice_from n s)

-- A text with a separator is what stands before the first one, the separator, and the rest.
pub cut_lem :
    (s : String) (sep : Char)
    → has_char s (code sep) ≡ true
    → cut_before s (code sep) <> (String.◌∷◌ sep "" <> cut_after s (code sep)) ≡ s
unfolding has_char cut_before cut_after
cut_lem String.[] sep h = cc
cut_lem (String.◌∷◌ c s) sep h = elim (Bool-cases (nat_eq (code c) (code sep))) [
  | inl e ↦
      rw (e, nil-append, cons-append, nil-append)
        (ap (λ x. String.◌∷◌ x s) (sym (Char-path c sep (nat_eq→eq _ _ e))))
  | inr e ↦ rw (e, cons-append) (ap (String.◌∷◌ c) (cut_lem s sep (has_rest e h)))
]
  where
    has_rest :
        nat_eq (code c) (code sep) ≡ false
        → has_char (String.◌∷◌ c s) (code sep) ≡ true
        → has_char s (code sep) ≡ true
    has_rest e h = ground arith

-- A text with a prefix is the prefix and what stands behind it.
pub slice_to-has_prefix : (s p : String) → has_prefix s p ≡ true → slice_to (len p) s ≡ p
unfolding has_prefix slice_to len
slice_to-has_prefix s String.[] h = refl
slice_to-has_prefix String.[] (String.◌∷◌ p ps) h = cc
slice_to-has_prefix (String.◌∷◌ c s) (String.◌∷◌ p ps) h =
    let (e, r) = both in
    rw (Char-path c p (nat_eq→eq _ _ e)) (ap (String.◌∷◌ p) (slice_to-has_prefix s ps r))
  where
    both : (nat_eq (code c) (code p) ≡ true) × (has_prefix s ps ≡ true)
    both = ground arith

-- ===== src/Text/Contains.antt =====
-- A text contains what was appended to it, and goes on containing what it contained.
use text.Mathlib.TextLemmas.{cons-append, nil-append}
use finch.Prelude.{String, ◌<>◌, Bool, true, ◌||◌, ◌≡◌, refl, sym, ap, ◌∙◌, arith}
use finch.Text.{has_prefix, contains_text}

has_prefix_self : (s : String) → has_prefix s s ≡ true
unfolding has_prefix
has_prefix_self String.[] = refl
has_prefix_self (String.◌∷◌ c s) = ground (arith, has_prefix_self s)

has_prefix-append : (s x p : String) → has_prefix s p ≡ true → has_prefix (s <> x) p ≡ true
unfolding has_prefix
has_prefix-append s x String.[] h = refl
has_prefix-append String.[] x (String.◌∷◌ c p) h = cc
has_prefix-append (String.◌∷◌ b s) x (String.◌∷◌ c p) h =
    rw cons-append (ground (arith, has_prefix-append s x p))

contains_text-nil : (s : String) → contains_text s "" ≡ true
unfolding contains_text has_prefix
contains_text-nil String.[] = refl
contains_text-nil (String.◌∷◌ c s) = refl

contains_text-of_prefix : (s p : String) → has_prefix s p ≡ true → contains_text s p ≡ true
unfolding contains_text
contains_text-of_prefix String.[] p h = h
contains_text-of_prefix (String.◌∷◌ c s) p h = rw h refl

pub contains_text-appended : (s x : String) → contains_text (s <> x) x ≡ true
unfolding contains_text
contains_text-appended String.[] x = rw nil-append (contains_text-of_prefix x x (has_prefix_self x))
contains_text-appended (String.◌∷◌ c s) x =
    rw (cons-append, contains_text-appended s x) (ground arith)

or_mono :
    (a b c d : Bool)
    → (a ≡ true → c ≡ true)
    → (b ≡ true → d ≡ true)
    → (a || b) ≡ true
    → (c || d) ≡ true
or_mono a b c d f g h = ground arith

pub contains_text-append :
    (s x p : String) → contains_text s p ≡ true → contains_text (s <> x) p ≡ true
unfolding contains_text
contains_text-append String.[] x p h =
    contains_text-of_prefix ("" <> x) p (has_prefix-append "" x p h)
contains_text-append (String.◌∷◌ c s) x p h =
    ap (λ t. contains_text t p) (cons-append c s x)
    ∙ or_mono (has_prefix (String.◌∷◌ c s) p) (contains_text s p)
        (has_prefix (String.◌∷◌ c (s <> x)) p) (contains_text (s <> x) p)
        (λ e.
          ap (λ t. has_prefix t p) (sym (cons-append c s x))
          ∙ has_prefix-append (String.◌∷◌ c s) x p e)
        (contains_text-append s x p) h

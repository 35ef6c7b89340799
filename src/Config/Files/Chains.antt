-- ===== src/Config/Files/Chains.antt =====
-- What a chain of actions that ends well says of its parts.
use finch.Prelude.{String, ◌≡◌, refl, Result, ok, err, panicked}
use finch.Config.Files.{in_context, Store, and_then}

-- A chain that ends well has a first part that ends well.
pub and_then-eq_ok :
    (st : Store) {A B : Type 0} (r : Result A) (w : st.World)
    (f : A → st.World → Result B × st.World) (b : B) (w'' : st.World)
    → and_then st (r, w) f ≡ (ok b, w'')
    → (a : A) × (r ≡ ok a) × (f a w ≡ (ok b, w''))
and_then-eq_ok st (ok a) w f b w'' h = (a, refl, h)
and_then-eq_ok st (err e) w f b w'' h = cc
and_then-eq_ok st panicked w f b w'' h = cc

pub in_context-eq_ok :
    (st : Store) {A : Type 0} (c : String) (p : Result A × st.World) (a : A) (w' : st.World)
    → in_context st c p ≡ (ok a, w')
    → p ≡ (ok a, w')
unfolding in_context
in_context-eq_ok st c (ok a, w) b w' h = h
in_context-eq_ok st c (err e, w) b w' h = cc
in_context-eq_ok st c (panicked, w) b w' h = cc

-- The same, with the world between the two parts.
pub and_then-inv :
    (st : Store) {A B : Type 0} (p : Result A × st.World) (f : A → st.World → Result B × st.World)
    (b : B) (w'' : st.World)
    → and_then st p f ≡ (ok b, w'')
    → (a : A) × (w' : st.World) × (p ≡ (ok a, w')) × (f a w' ≡ (ok b, w''))
and_then-inv st (ok a, w) f b w'' h = (a, w, refl, h)
and_then-inv st (err e, w) f b w'' h = cc
and_then-inv st (panicked, w) f b w'' h = cc

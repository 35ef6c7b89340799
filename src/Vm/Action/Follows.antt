-- ===== src/Vm/Action/Follows.antt =====
-- Actions that make the calls of a plan, in its order, and stop only by failing.
use finch.Prelude.{
  List, [], ◌∷◌, ◌++◌, ◌≡◌, refl, sym, ◌∙◌, ap, append_assoc, append-nil, Result, ok, err, panicked,
}
use finch.Vm.Action.{St, Action, lift, perform, continue, ◌>>=◌, ignore_error}

-- The calls that were made are the first ones of the plan, and all of it after a success.
pub record Made {C : Type 0} (plan before after : List C) (Success : Type 0) : Type 0 where
  pub made : List C
  pub left : List C
  pub whole : made ++ left ≡ plan
  pub calls : after ≡ before ++ made
  pub finished : Success → left ≡ []

abbrev pub IsOk : {A : Type 0} → Result A → Type 0
IsOk (ok a) = Unit
IsOk (err e) = ⊥
IsOk panicked = ⊥

pub record Follows {C W A : Type 0} (plan : List C) (m : Action C W A) : Type 0 where
  pub at : (s : St C W) → Made plan s.calls (m s).1.calls (IsOk (m s).0)

whole_of :
    {C : Type 0} (made left made' left' p q : List C)
    → made ++ left ≡ p
    → left ≡ []
    → made' ++ left' ≡ q
    → (made ++ made') ++ left' ≡ p ++ q
whole_of made left made' left' p q w l w' =
    append_assoc made made' left'
    ∙ ap (λ x. made ++ x) w'
    ∙ ap (λ x. x ++ q) (sym (append-nil made) ∙ ap (λ x. made ++ x) (sym l) ∙ w)

module _ {C W : Type 0} where
  pub Follows-lift : {A : Type 0} (r : Result A) → Follows [] (lift {C = C} {W = W} r)
  Follows-lift r = record {
    at = λ s. record {
      made = [];
      left = [];
      whole = refl;
      calls = sym (append-nil s.calls);
      finished = λ _. refl;
    };
  }

  pub Follows-perform : {A : Type 0} (c : C) (f : W → Result A × W) → Follows (c ∷ []) (perform c f)
  Follows-perform c f = record {
    at = λ s. record { made = c ∷ []; left = []; whole = refl; calls = refl; finished = λ _. refl };
  }

  -- A call whose error is ignored is made too.
  pub Follows-ignore :
      {A : Type 0} (c : C) (f : W → Result A × W) → Follows (c ∷ []) (ignore_error (perform c f))
  Follows-ignore c f = record {
    at = λ s. record { made = c ∷ []; left = []; whole = refl; calls = refl; finished = λ _. refl };
  }

  Made-continue :
      {A B : Type 0} {p q : List C} (before : List C) (r : Result A) (s : St C W)
      (f : A → Action C W B)
      → Made p before s.calls (IsOk r)
      → ((a : A) → Follows q (f a))
      → Made (p ++ q) before (continue r f s).1.calls (IsOk (continue r f s).0)
  Made-continue {p = p} {q = q} before (ok a) s f k kf =
      let k' = (kf a).at s in
      record {
        made = k.made ++ k'.made;
        left = k'.left;
        whole = whole_of k.made k.left k'.made k'.left p q k.whole (k.finished tt) k'.whole;
        calls = k'.calls ∙ ap (λ x. x ++ k'.made) k.calls ∙ append_assoc before k.made k'.made;
        finished = k'.finished;
      }
  Made-continue {q = q} before (err e) s f k kf = record {
    made = k.made;
    left = k.left ++ q;
    whole = sym (append_assoc k.made k.left q) ∙ ap (λ x. x ++ q) k.whole;
    calls = k.calls;
    finished = λ o. absurd o;
  }
  Made-continue {q = q} before panicked s f k kf = record {
    made = k.made;
    left = k.left ++ q;
    whole = sym (append_assoc k.made k.left q) ∙ ap (λ x. x ++ q) k.whole;
    calls = k.calls;
    finished = λ o. absurd o;
  }

  pub Follows-bind :
      {A B : Type 0} {p q : List C} (m : Action C W A) (f : A → Action C W B)
      → Follows p m
      → ((a : A) → Follows q (f a))
      → Follows (p ++ q) (m >>= f)
  Follows-bind m f km kf = record { at = λ s. Made-continue s.calls (m s).0 (m s).1 f (km.at s) kf }

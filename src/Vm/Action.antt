-- ===== src/Vm/Action.antt =====
-- Actions that call other components and may fail. What was called is kept beside the world.
pub mod Follows
use finch.Prelude.{List, [], ◌∷◌, ◌++◌, Result, ok, err, panicked}

-- The world, and the calls so far, the oldest first.
pub record St (C W : Type 0) : Type 0 where
  pub world : W
  pub calls : List C

abbrev pub Action : Type 0 → Type 0 → Type 0 → Type 0
Action C W A = St C W → Result A × St C W

abbrev pub forget : {A : Type 0} → Result A → Result (Unit {0})
forget (ok a) = ok tt
forget (err e) = ok tt
forget panicked = panicked

module _ {C W : Type 0} where
  abbrev pub pure : {A : Type 0} → A → Action C W A
  pure a s = (ok a, s)

  abbrev pub lift : {A : Type 0} → Result A → Action C W A
  lift r s = (r, s)

  -- A call of another component, which is written down.
  abbrev pub perform : {A : Type 0} → C → (W → Result A × W) → Action C W A
  perform c f s = let (r, w) = f s.world in (r, record { world = w; calls = s.calls ++ c ∷ [] })

  abbrev pub continue : {A B : Type 0} → Result A → (A → Action C W B) → Action C W B
  continue (ok a) f s = f a s
  continue (err e) f s = (err e, s)
  continue panicked f s = (panicked, s)

  infixl 5 ◌>>=◌ ◌>>◌
  abbrev pub ◌>>=◌ : {A B : Type 0} → Action C W A → (A → Action C W B) → Action C W B
  ◌>>=◌ m f s = let (r, s') = m s in continue r f s'

  abbrev pub ◌>>◌ : {A B : Type 0} → Action C W A → Action C W B → Action C W B
  m >> n = m >>= λ _. n

  -- The error is logged or ignored, and the action goes on.
  abbrev pub ignore_error : {A : Type 0} → Action C W A → Action C W (Unit {0})
  ignore_error m s = let (r, s') = m s in (forget r, s')

-- ===== src/Prelude/Act.antt =====
-- Actions on a world that may fail: `(value, error)` with the world that they leave.
use Prim.Native.String.{String}
use mathlib.Core.Path.{◌≡◌, refl, ap}
use finch.Prelude.Errors.{Result, ok, err, panicked, context, ok_inj}

abbrev pub Act : Type 0 → Type 0 → Type 0
Act W A = W → Result A × W

abbrev pub forget : {A : Type 0} → Result A → Result (Unit {0})
forget (ok a) = ok tt
forget (err e) = ok tt
forget panicked = panicked

module _ {W : Type 0} where
  abbrev pub pure : {A : Type 0} → A → Act W A
  pure a w = (ok a, w)

  -- A result that does not look at the world.
  abbrev pub raise : {A : Type 0} → Result A → Act W A
  raise r w = (r, w)

  -- A look at the world.
  abbrev pub look : {A : Type 0} → (W → Result A) → Act W A
  look f w = (f w, w)

  abbrev pub continue : {A B : Type 0} → Result A → (A → Act W B) → Act W B
  continue (ok a) f w = f a w
  continue (err e) f w = (err e, w)
  continue panicked f w = (panicked, w)

  infixl 5 ◌>>=◌ ◌>>◌
  abbrev pub ◌>>=◌ : {A B : Type 0} → Act W A → (A → Act W B) → Act W B
  ◌>>=◌ m f w = let (r, w') = m w in continue r f w'

  abbrev pub ◌>>◌ : {A B : Type 0} → Act W A → Act W B → Act W B
  m >> n = m >>= λ _. n

  -- `fmt.Errorf("context: %w", err)`
  abbrev pub described : {A : Type 0} → String → Act W A → Act W A
  described c m w = let (r, w') = m w in (context c r, w')

  -- The error is dropped or logged.
  abbrev pub ignored : {A : Type 0} → Act W A → Act W (Unit {0})
  ignored m w = let (r, w') = m w in (forget r, w')

  -- What succeeds has parts that succeed.
  pub continue-inv :
      {A B : Type 0} (r : Result A) (f : A → Act W B) (w w' : W) (b : B)
      → continue r f w ≡ (ok b, w')
      → (a : A) × (r ≡ ok a) × (f a w ≡ (ok b, w'))
  continue-inv (ok a) f w w' b h = (a, refl, h)
  continue-inv (err e) f w w' b h = cc
  continue-inv panicked f w w' b h = cc

  pub bind-inv :
      {A B : Type 0} (m : Act W A) (f : A → Act W B) (w w'' : W) (b : B)
      → (m >>= f) w ≡ (ok b, w'')
      → (a : A) × (w' : W) × (m w ≡ (ok a, w')) × (f a w' ≡ (ok b, w''))
  bind-inv {A} {B} m f w w'' b e = go (m w).0 (m w).1 refl e
    where
      go :
          (r : Result A) (w' : W)
          → m w ≡ (r, w')
          → continue r f w' ≡ (ok b, w'')
          → (a : A) × (w' : W) × (m w ≡ (ok a, w')) × (f a w' ≡ (ok b, w''))
      go (ok a) w' e k = (a, w', e, k)
      go (err x) w' e k = cc
      go panicked w' e k = cc

  pub described-inv :
      {A : Type 0} (c : String) (m : Act W A) (w w' : W) (a : A)
      → described c m w ≡ (ok a, w')
      → m w ≡ (ok a, w')
  described-inv {A} c m w w' a e = go (m w).0 (m w).1 e
    where
      go :
          (r : Result A) (v : W)
          → ◌≡◌ {A = Result A × W} (context c r, v) (ok a, w')
          → ◌≡◌ {A = Result A × W} (r, v) (ok a, w')
      go (ok x) v k = k
      go (err x) v k = cc
      go panicked v k = cc

  pub pure-inv : {A : Type 0} (a b : A) (w w' : W) → pure a w ≡ (ok b, w') → (a ≡ b) × (w ≡ w')
  pure-inv a b w w' e = (ok_inj a b (ap (λ x. x.0) e), ap (λ x. x.1) e)

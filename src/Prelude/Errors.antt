-- ===== src/Prelude/Errors.antt =====
-- Go's `(value, error)` results. A run-time panic is a third outcome, which nothing here recovers.
use Prim.Native.String.{String}
use mathlib.Core.Bool.{Bool, true, false}
use mathlib.Core.Path.{◌≡◌, refl}

pub data Error : Type 0 where
  message : String → Error
  -- `fs.ErrNotExist`, which is also `afero.ErrFileNotFound`
  not_exist : Error
  -- `fmt.Errorf("context: %w", e)`
  wrapped : String → Error → Error

-- `errors.Is(e, fs.ErrNotExist)`
abbrev pub is_not_exist : Error → Bool
is_not_exist (message m) = false
is_not_exist not_exist = true
is_not_exist (wrapped c e) = is_not_exist e

pub data Result {ℓ} (A : Type ℓ) : Type ℓ where
  ok : A → Result A
  err : Error → Result A
  -- index out of range, nil dereference
  panicked : Result A

infixl 5 ◌>>=◌ ◌>>◌
abbrev pub ◌>>=◌ {ℓ κ} : {A : Type ℓ} {B : Type κ} → Result A → (A → Result B) → Result B
ok a >>= f = f a
err e >>= f = err e
panicked >>= f = panicked

abbrev pub ◌>>◌ {ℓ} : {B : Type ℓ} → Result (Unit {0}) → Result B → Result B
m >> k = m >>= λ _. k

-- `if err != nil { return fmt.Errorf("context: %w", err) }`
abbrev pub context {ℓ} : {A : Type ℓ} → String → Result A → Result A
context c (ok a) = ok a
context c (err e) = err (wrapped c e)
context c panicked = panicked

-- What ends well has a first part that ends well.
pub bind-eq_ok {ℓ κ} :
    {A : Type ℓ} {B : Type κ} (r : Result A) (f : A → Result B) (b : B)
    → (r >>= f) ≡ ok b
    → (a : A) × (r ≡ ok a) × (f a ≡ ok b)
bind-eq_ok (ok a) f b h = (a, refl, h)
bind-eq_ok (err e) f b h = cc
bind-eq_ok panicked f b h = cc

pub ok_inj {ℓ} : {A : Type ℓ} (a b : A) → ok a ≡ ok b → a ≡ b
ok_inj a b h = cc

pub context-eq_ok {ℓ} :
    {A : Type ℓ} (c : String) (r : Result A) (a : A) → context c r ≡ ok a → r ≡ ok a
context-eq_ok c (ok x) a h = h
context-eq_ok c (err e) a h = cc
context-eq_ok c panicked a h = cc

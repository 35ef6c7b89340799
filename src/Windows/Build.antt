-- ===== src/Windows/Build.antt =====
-- `imageBuildHandler`: which argument it converts, and where it faults.
use finch.Prelude.{
  String, Bool, true, false, ◌||◌, List, [], ◌∷◌, ◌++◌, ◌≡◌, ◌≢◌, refl, sym, ap, ◌↔◌, ◌⊎◌, inl, inr,
  if◌then◌else◌, Result, ok, err, panicked, ◌>>=◌, contains, ◌==◌, ==_iff,
}
use mathlib.Core.Path.{subst}
use finch.Nerdctl.Handlers.{Command}
use finch.Windows.Paths.{WinDeps, convert_to_wsl_path}
use finch.Windows.Commands.{build_context, image_build_handler}

-- The arguments that have no directory.
abbrev pub NoDirectory : List String → Type 0
NoDirectory args = (args ≡ []) ⊎ (args ≡ "--debug" ∷ [])

abbrev pub asks_help : List String → Bool
asks_help args = contains args "--help" || contains args "-h"

module _ (w : WinDeps) where
  build_context-last :
      (front : List String) (dir p : String)
      → (dir == "--debug") ≡ false
      → convert_to_wsl_path w dir ≡ ok p
      → build_context w (front ++ dir ∷ []) ≡ ok (front ++ p ∷ [])
  unfolding build_context ◌==◌
  build_context-last [] dir p f e = rw (f, e) refl
  build_context-last (a ∷ []) dir p f e = rw (f, e) refl
  build_context-last (a ∷ (b ∷ [])) dir p f e = rw (f, e) refl
  build_context-last (a ∷ (b ∷ (c ∷ front))) dir p f e =
      rw (build_context-last (b ∷ (c ∷ front)) dir p f e) refl

  build_context-debug :
      (front : List String) (dir p : String)
      → convert_to_wsl_path w dir ≡ ok p
      → build_context w (front ++ dir ∷ ("--debug" ∷ [])) ≡ ok (front ++ p ∷ ("--debug" ∷ []))
  unfolding build_context ◌==◌
  build_context-debug [] dir p e = rw e refl
  build_context-debug (a ∷ []) dir p e = rw e refl
  build_context-debug (a ∷ (b ∷ [])) dir p e = rw e refl
  build_context-debug (a ∷ (b ∷ (c ∷ front))) dir p e =
      rw (build_context-debug (b ∷ (c ∷ front)) dir p e) refl

  -- What a conversion may fail with, but no fault.
  abbrev pub Converts : Type 0
  Converts = (path : String) → convert_to_wsl_path w path ≢ panicked

  bind-ne_panicked :
      {A : Type 0} (r : Result A) (f : A → List String)
      → r ≢ panicked
      → (r >>= λ x. ok (f x)) ≢ panicked
  bind-ne_panicked (ok x) f n e = cc
  bind-ne_panicked (err x) f n e = cc
  bind-ne_panicked panicked f n e = n refl

  build_context-ne_panicked :
      (n : Converts) (a b : String) (rest : List String)
      → build_context w (a ∷ (b ∷ rest)) ≢ panicked
  unfolding build_context
  build_context-ne_panicked n a b [] = go (b == "--debug")
    where
      go :
          (t : Bool)
          → (if t
              then (convert_to_wsl_path w a >>= λ p. ok (p ∷ (b ∷ [])))
              else (convert_to_wsl_path w b >>= λ p. ok (a ∷ (p ∷ []))))
            ≢ panicked
      go true = bind-ne_panicked (convert_to_wsl_path w a) (λ p. p ∷ (b ∷ [])) (n a)
      go false = bind-ne_panicked (convert_to_wsl_path w b) (λ p. a ∷ (p ∷ [])) (n b)
  build_context-ne_panicked n a b (c ∷ rest) =
      bind-ne_panicked (build_context w (b ∷ (c ∷ rest))) (λ r. a ∷ r)
        (build_context-ne_panicked n b c rest)

  NoDirectory-build_context :
      (n : Converts) (args : List String) → build_context w args ≡ panicked → NoDirectory args
  unfolding build_context
  NoDirectory-build_context n [] e = inl refl
  NoDirectory-build_context n (a ∷ []) e = go (a == "--debug") refl e
    where
      go :
          (t : Bool)
          → (a == "--debug") ≡ t
          → (if t then panicked else (convert_to_wsl_path w a >>= λ p. ok (p ∷ []))) ≡ panicked
          → NoDirectory (a ∷ [])
      go true q e = inr (ap (λ x. x ∷ []) (==_iff a "--debug" q))
      go false q e = absurd (bind-ne_panicked (convert_to_wsl_path w a) (λ p. p ∷ []) (n a) e)
  NoDirectory-build_context n (a ∷ (b ∷ rest)) e = absurd (build_context-ne_panicked n a b rest e)

  -- `imageBuildHandler` faults exactly where there is no argument but, at most, `--debug`.
  pub image_build_handler-panicked_iff :
      (n : Converts) (docker_compat : Bool) (c : Command)
      → (image_build_handler w docker_compat c ≡ panicked) ↔ NoDirectory c.args
  unfolding image_build_handler build_context contains ◌==◌
  image_build_handler-panicked_iff n docker_compat c =
      (there (contains c.args "--help" || contains c.args "-h"), back)
    where
      answer : List String → Result Command
      answer args = build_context w args >>= λ out. ok (record c { args = out })

      without :
          (r : Result (List String))
          → (r >>= λ out. ok (record c { args = out })) ≡ panicked
          → r ≡ panicked
      without (ok out) e = cc
      without (err x) e = cc
      without panicked e = refl

      there : (t : Bool) → (if t then ok c else answer c.args) ≡ panicked → NoDirectory c.args
      there true e = cc
      there false e = NoDirectory-build_context n c.args (without (build_context w c.args) e)

      at_args : List String → Type 0
      at_args args =
          (if contains args "--help" || contains args "-h" then ok c else answer args) ≡ panicked

      back : NoDirectory c.args → at_args c.args
      back (inl e) = subst at_args (sym e) refl
      back (inr e) = subst at_args (sym e) refl

  module _ (docker_compat : Bool) (c : Command) (front : List String) (dir p : String) where
    -- `imageBuildHandler` converts the directory of a build, which is the last argument or the one
    -- before a last `--debug`, and leaves all others.
    image_build_handler-converts :
        (dir == "--debug") ≡ false
        → convert_to_wsl_path w dir ≡ ok p
        → (asks_help (front ++ dir ∷ []) ≡ false
            → image_build_handler w docker_compat (record c { args = front ++ dir ∷ [] })
              ≡ ok (record c { args = front ++ p ∷ [] }))
          × (asks_help (front ++ dir ∷ ("--debug" ∷ [])) ≡ false
              → image_build_handler w docker_compat
                  (record c { args = front ++ dir ∷ ("--debug" ∷ []) })
                ≡ ok (record c { args = front ++ p ∷ ("--debug" ∷ []) }))
    unfolding image_build_handler
    image_build_handler-converts f e = (
      λ h. rw (h, build_context-last front dir p f e) refl,
      λ h. rw (h, build_context-debug front dir p e) refl,
    )

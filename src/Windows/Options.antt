-- ===== src/Windows/Options.antt =====
-- The options whose value is a list of entries `key=value`.
use Prim.Native.Char.{code}
use mathlib.Core.List.{Memᴰ}
use finch.Prelude.{
  ℕ, String, Bool, false, some, List, [], ◌∷◌, ◌≡◌, refl, sym, ap, ◌∙◌, arith, nat_eq, Result,
  panicked, ◌>>=◌,
}
use finch.Text.{split, has_char}
use finch.Windows.Paths.{WinDeps}
use finch.Windows.Handlers.{
  add_option, parse_entries, rewrite_option, with_value, handle_output_option, handle_secret_option,
}

-- A text with no separator is one piece.
split-absent : (s : String) (sep : ℕ) → has_char s sep ≡ false → split s sep ≡ s ∷ []
unfolding split has_char
split-absent String.[] sep h = refl
split-absent (String.◌∷◌ c s) sep h = rw (first, split-absent s sep rest) refl
  where
    first : nat_eq (code c) sep ≡ false
    first = ground arith

    rest : has_char s sep ≡ false
    rest = ground arith

add_option-ne_err :
    (parts : List String) (m : List (String × String))
    (f : List (String × String) → Result (List (String × String)))
    → ((m : List (String × String)) → f m ≡ panicked)
    → (add_option parts m >>= f) ≡ panicked
add_option-ne_err [] m f h = refl
add_option-ne_err (k ∷ []) m f h = refl
add_option-ne_err (k ∷ (v ∷ rest)) m f h = h _

parse_entries-bare :
    (es : List String) (e : String) (m : List (String × String))
    → Memᴰ e es
    → has_char e b'=' ≡ false
    → parse_entries es m ≡ panicked
unfolding parse_entries
parse_entries-bare [] e m x h = elim x [ ]
parse_entries-bare (x ∷ es) e m (Memᴰ.head q) h =
    ap (λ (parts : List String). add_option parts m >>= parse_entries es)
      (split-absent x b'=' (ap (λ y. has_char y b'=') (sym q) ∙ h))
parse_entries-bare (x ∷ es) e m (Memᴰ.tail t) h =
    add_option-ne_err (split x b'=') m (parse_entries es) (λ m'. parse_entries-bare es e m' t h)

module _ (w : WinDeps) (iterate : List (String × String) → List (String × String))
    (docker_compat : Bool) (arg v e : String) where
  -- An entry with no `=` makes `--output` and `--secret` fault, whatever stands beside it: `-o dir`
  -- does.
  pub handle_options-bare :
      has_char arg b'=' ≡ false
      → Memᴰ e (split v b',')
      → has_char e b'=' ≡ false
      → (handle_output_option w iterate docker_compat arg (some v) ≡ panicked)
        × (handle_secret_option w iterate docker_compat arg (some v) ≡ panicked)
  unfolding handle_output_option handle_secret_option with_value rewrite_option
  handle_options-bare a t h =
      let p = parse_entries-bare (split v b',') e [] t h in (rw (a, p) refl, rw (a, p) refl)

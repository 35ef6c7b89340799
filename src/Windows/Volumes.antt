-- ===== src/Windows/Volumes.antt =====
-- The value of `-v`: a path of the host, a path of the container, and a mode.
use text.Mathlib.TextLemmas.{nil-append}
use text.Mathlib.TextLemmas
use mathlib.Core.Bool.{or-true}
use finch.Prelude.{
  String, ◌<>◌, ◌==◌, Bool, false, some, ◌≡◌, refl, ap, ◌∙◌, List, [], ◌∷◌, ◌-◌, arith, contains,
  ok,
}
use finch.Text.{len, slice_from, slice_to, has_suffix, has_char, cut_last}
use finch.Text.Suffix.{
  slice_to-before, slice_from-before, has_suffix-append, has_suffix-cut_last, cut_last-append,
}
use finch.Windows.Paths.{WinDeps}
use finch.Windows.Handlers.{split_mode, rewrite_bind, rewrite_volume, with_value, handle_volume}

pub data AccessMode : Type 0 where
  default ro rw_mode rro : AccessMode

abbrev pub mode_text : AccessMode → String
mode_text default = ""
mode_text ro = ":ro"
mode_text rw_mode = ":rw"
mode_text rro = ":rro"

abbrev pub mode_names : List String
mode_names = "ro" ∷ "rw" ∷ "rro" ∷ []

-- The path of the container is no mode and has no colon.
pub record IsTarget (container : String) : Type 0 where
  pub no_colon : has_char container b':' ≡ false
  pub no_mode : contains mode_names container ≡ false

module _ (x container : String) (t : IsTarget container) where
  abbrev bound : String
  bound = x <> String.◌∷◌ ":" container

  cut_bound : cut_last bound b':' ≡ some (x, container)
  cut_bound = cut_last-append x container ":" t.no_colon

  no_suffix :
      (m : String)
      → has_char m b':' ≡ false
      → (m == container) ≡ false
      → has_suffix bound (String.◌∷◌ ":" m) ≡ false
  no_suffix m h k = has_suffix-cut_last bound x container m ":" cut_bound h k

  marked :
      (m : String)
      → ◌≡◌ {A = String × String}
          (
            slice_to (len (bound <> m) - len m) (bound <> m),
            slice_from (len (bound <> m) - len m) (bound <> m),
          )
          (bound, m)
  marked m = λ i. (slice_to-before bound m i, slice_from-before bound m i)

  no_short :
      (m : String)
      → has_char m b':' ≡ false
      → (m == "rro") ≡ false
      → has_suffix (bound <> ":rro") (String.◌∷◌ ":" m) ≡ false
  unfolding has_char
  no_short m h e =
      has_suffix-cut_last (bound <> ":rro") bound "rro" m ":" (cut_last-append bound "rro" ":" refl)
        h e

  no_mode_suffix :
      (has_suffix bound ":ro" ≡ false)
      × (has_suffix bound ":rw" ≡ false)
      × (has_suffix bound ":rro" ≡ false)
  unfolding contains has_char
  no_mode_suffix =
      let k = t.no_mode in
      (
        no_suffix "ro" refl (ground arith),
        no_suffix "rw" refl (ground arith),
        no_suffix "rro" refl (ground arith),
      )

  split_mode-bound : (m : AccessMode) → split_mode (bound <> mode_text m) ≡ (bound, mode_text m)
  unfolding split_mode len ◌==◌ has_char
  split_mode-bound default =
      let (a, b, c) = no_mode_suffix in
      ap split_mode (TextLemmas.append-nil bound) ∙ rw (a, b, c) refl
  split_mode-bound ro = rw (has_suffix-append bound ":ro") (marked ":ro")
  split_mode-bound rw_mode = rw (has_suffix-append bound ":rw", or-true) (marked ":rw")
  split_mode-bound rro =
      rw (no_short "ro" refl refl, no_short "rw" refl refl, has_suffix-append bound ":rro")
        (marked ":rro")

-- The value of `-v`, as a user writes it.
abbrev pub volume_text : String → String → AccessMode → String
volume_text host container m = (host <> String.◌∷◌ ":" container) <> mode_text m

module _ (w : WinDeps) (host container : String) (t : IsTarget container) (m : AccessMode) where
  -- The name of a volume, which has no backslash, stays.
  pub handle_volume-named :
      (docker_compat : Bool)
      → has_char host b'\\' ≡ false
      → handle_volume w docker_compat "-v" (some (volume_text host container m))
        ≡ ok ("-v", some (volume_text host container m))
  unfolding handle_volume with_value rewrite_volume rewrite_bind
  handle_volume-named docker_compat h =
      rw (split_mode-bound host container t m, cut_last-append host container ":" t.no_colon, h)
        refl

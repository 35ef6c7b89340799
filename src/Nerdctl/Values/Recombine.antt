-- ===== src/Nerdctl/Values/Recombine.antt =====
-- What `handleFlagArg` returns can be put together again to what it was given.
use Prim.Native.Char.{Char, code}
use finch.Prelude.{
  ℕ, zero, suc, ap, String, ◌<>◌, Bool, true, false, ◌&&◌, ◌||◌, ◌≡◌, refl, inl, inr, arith, ltb,
  nat_eq, Bool-cases,
}
use finch.Text.{len, has_prefix, slice_from, slice_to, has_char, cut_before}
use finch.Text.Laws.{cut_lem, slice_to-append-slice_from, slice_to-has_prefix}
use finch.Nerdctl.Values.{
  in_one, in_two, in_pieces, no_flag, FlagArg, handle_flag_arg, is_value, is_digit, is_numeric_arg,
  scan_digits,
}

-- The flag and its value, as the two arguments or as the two pieces of one of them.
pub data Recombines (arg next : String) (f : FlagArg) : Type 0 where
  pair : f.skip ≡ true → f.key ≡ arg → f.value ≡ next → is_value next ≡ true → Recombines arg next f
  equated :
      f.skip ≡ false
      → f.key <> ("=" <> f.value) ≡ arg
      → has_char f.key b'=' ≡ false
      → Recombines arg next f
  adjacent : f.skip ≡ false → f.key <> f.value ≡ arg → len f.key ≡ 2 → Recombines arg next f
  -- A short flag, or two dashes, before something that is no value is given up.
  dropped : f.skip ≡ false → f.key ≡ "" → ltb 2 (len arg) ≡ false → Recombines arg next f

cut_before-has_char : (s : String) (sep : ℕ) → has_char (cut_before s sep) sep ≡ false
unfolding has_char cut_before
cut_before-has_char String.[] sep = refl
cut_before-has_char (String.◌∷◌ c s) sep = elim (Bool-cases (nat_eq (code c) sep)) [
  | inl e ↦ rw e refl
  | inr e ↦ rw (e, has_char, e, cut_before-has_char s sep) refl
]

len-slice_to : (n : ℕ) (s : String) → ltb n (len s) ≡ true → len (slice_to n s) ≡ n
unfolding len slice_to
len-slice_to n String.[] h = ground arith
len-slice_to zero (String.◌∷◌ c s) h = refl
len-slice_to (suc n) (String.◌∷◌ c s) h = ap suc (len-slice_to n s (ground arith))

module _ (arg next : String) (dash : has_prefix arg "-" ≡ true) where
  handle-equated : has_char arg b'=' ≡ true → handle_flag_arg arg next ≡ in_one arg
  unfolding handle_flag_arg
  handle-equated h = ground arith

  module _ (none : has_char arg b'=' ≡ false) where
    handle-long_pair :
        (has_prefix arg "--" && is_value next) ≡ true → handle_flag_arg arg next ≡ in_two arg next
    unfolding handle_flag_arg
    handle-long_pair h = ground arith

    -- A long flag before something that is no value is taken apart like a short one.
    pub handle-pieces :
        (has_prefix arg "--" && is_value next) ≡ false
        → ltb 2 (len arg) ≡ true
        → handle_flag_arg arg next ≡ in_pieces arg
    unfolding handle_flag_arg
    handle-pieces h long = ground arith

    handle-short_pair :
        ltb 2 (len arg) ≡ false
        → (nat_eq (len arg) 2 && is_value next) ≡ true
        → handle_flag_arg arg next ≡ in_two arg next
    unfolding handle_flag_arg
    handle-short_pair short h = ground arith

    handle-dropped :
        (has_prefix arg "--" && is_value next) ≡ false
        → ltb 2 (len arg) ≡ false
        → (nat_eq (len arg) 2 && is_value next) ≡ false
        → handle_flag_arg arg next ≡ no_flag
    unfolding handle_flag_arg
    handle-dropped h short h' = ground arith

    pair_lem : (b : Bool) → (b && is_value next) ≡ true → Recombines arg next (in_two arg next)
    pair_lem true h = pair refl refl refl h
    pair_lem false h = cc

    unequated : Recombines arg next (handle_flag_arg arg next)
    unequated = elim (Bool-cases (has_prefix arg "--" && is_value next)) [
      | inl v ↦ rw (handle-long_pair v) (pair_lem (has_prefix arg "--") v)
      | inr w ↦ elim (Bool-cases (ltb 2 (len arg))) [
        | inl long ↦
            rw (handle-pieces w long)
              (adjacent refl (slice_to-append-slice_from 2 arg) (len-slice_to 2 arg long))
        | inr short ↦ elim (Bool-cases (nat_eq (len arg) 2 && is_value next)) [
          | inl v ↦ rw (handle-short_pair short v) (pair_lem (nat_eq (len arg) 2) v)
          | inr u ↦ rw (handle-dropped w short u) (dropped refl refl short)
        ]
      ]
    ]

  -- The flag that `handleFlagArg` returns is the argument with the next one for its value, where
  -- that is a value; or it is the argument taken apart at its first `=` or behind the second byte; or there
  -- is none, and the argument has two bytes at most.
  pub handle_flag_arg-Recombines : Recombines arg next (handle_flag_arg arg next)
  handle_flag_arg-Recombines = elim (Bool-cases (has_char arg b'=')) [
    | inl h ↦
        rw (handle-equated h) (equated refl (cut_lem arg "=" h) (cut_before-has_char arg b'='))
    | inr none ↦ unequated none
  ]

dash_of : (s : String) → has_prefix s "--" ≡ true → has_prefix s "-" ≡ true
unfolding has_prefix
dash_of String.[] h = cc
dash_of (String.◌∷◌ c String.[]) h = ground arith
dash_of (String.◌∷◌ c (String.◌∷◌ e s)) h = ground arith

-- A long flag with no `=` before an argument that is no value comes out as two dashes and the rest
-- of its name, two arguments that were not given.
pub handle_flag_arg-splits_long :
    (arg next : String)
    → has_prefix arg "--" ≡ true
    → has_char arg b'=' ≡ false
    → is_value next ≡ false
    → ltb 2 (len arg) ≡ true
    → handle_flag_arg arg next ≡ record { skip = false; key = "--"; value = slice_from 2 arg }
unfolding len
handle_flag_arg-splits_long arg next long none v l =
    rw (handle-pieces arg next (dash_of arg long) none (rw (long, v)) l)
      (rw (slice_to-has_prefix arg "--" long))

-- Whether a text begins with a digit.
unfoldable pub first_digit : String → Bool
first_digit String.[] = false
first_digit (String.◌∷◌ c s) = is_digit (code c)

scan_digits-later : (i : ℕ) (s : String) → scan_digits (suc i) s ≡ true
unfolding scan_digits
scan_digits-later i String.[] = refl
scan_digits-later i (String.◌∷◌ c s) = ground (arith, scan_digits-later (suc i) s)

-- An argument is numeric when it begins with a digit, or with a dash and a digit: what follows the
-- first digit is not looked at.
pub is_numeric_arg-cons :
    (c : Char) (s : String)
    → is_numeric_arg (String.◌∷◌ c s)
      ≡ (is_digit (code c) || (nat_eq (code c) b'-' && first_digit s))
unfolding is_numeric_arg first_digit
is_numeric_arg-cons c String.[] = ground (arith, scan_digits-later 0 "")
is_numeric_arg-cons c (String.◌∷◌ e s) =
    ground (arith, scan_digits-later 0 (String.◌∷◌ e s), scan_digits-later 0 s)

-- ===== src/Nerdctl/Values.antt =====
-- `isNumericArg`, `handleFlagArg` and `handleEnv`: one flag and the argument after it.
pub mod Recombine
use Prim.Native.Char.{code}
use finch.Prelude.{
  ℕ, zero, suc, String, ◌<>◌, Bool, true, false, ◌&&◌, ◌||◌, not, Option, none, some, ltb, leb,
  nat_eq, ◌==◌, if◌then◌else◌,
}
use finch.Text.{len, has_prefix, slice_from, slice_to, has_char, cut_before, cut_after}

unfoldable pub is_digit : ℕ → Bool
is_digit c = leb b'0' c && leb c b'9'

-- The loops of `isNumericArg`: `i` counts from the first character that is looked at.
scan_digits : ℕ → String → Bool
unfolding is_digit
scan_digits i String.[] = true
scan_digits i (String.◌∷◌ c s) = if is_digit (code c) then scan_digits (suc i) s else ltb 0 i

unfoldable pub is_numeric_arg : String → Bool
unfolding scan_digits len
is_numeric_arg String.[] = false
is_numeric_arg (String.◌∷◌ c s) =
    if nat_eq (code c) b'-' && ltb 0 (len s)
    then scan_digits 0 s
    else scan_digits 0 (String.◌∷◌ c s)

-- The three results of `handleFlagArg`.
pub record FlagArg : Type 0 where
  pub skip : Bool
  pub key : String
  pub value : String

abbrev pub in_one : String → FlagArg
in_one arg = record { skip = false; key = cut_before arg b'='; value = cut_after arg b'=' }

abbrev pub in_two : String → String → FlagArg
in_two arg next = record { skip = true; key = arg; value = next }

-- A short flag with its value behind it.
abbrev pub in_pieces : String → FlagArg
in_pieces arg = record { skip = false; key = slice_to 2 arg; value = slice_from 2 arg }

abbrev pub no_flag : FlagArg
no_flag = record { skip = false; key = ""; value = "" }

-- `isNumericArg(nextArg)` or `!strings.HasPrefix(nextArg, "-")`
unfoldable pub is_value : String → Bool
is_value next = is_numeric_arg next || not (has_prefix next "-")

unfoldable pub handle_flag_arg : String → String → FlagArg
handle_flag_arg arg next =
    if has_prefix arg "--" && has_char arg b'='
    then in_one arg
    else if has_prefix arg "--" && is_value next
    then in_two arg next
    else if has_prefix arg "-" && has_char arg b'='
    then in_one arg
    else if has_prefix arg "-" && ltb 2 (len arg)
    then in_pieces arg
    else if has_prefix arg "-" && nat_eq (len arg) 2 && is_value next
    then in_two arg next
    else no_flag

-- The two results of `handleEnv`.
pub record EnvArg : Type 0 where
  pub skip : Bool
  pub env : String

module _ (lookup_env : String → Option String) where
  -- `NAME=value` as it stands, `NAME` with the host's value, and "" if the host has none.
  unfoldable pub resolve_env : String → String
  resolve_env name =
      if has_char name b'='
      then name
      else elim (lookup_env name) [ none ↦ "" | some val ↦ name <> ("=" <> val) ]

  env_name : String → String → String
  env_name arg next =
      if arg == "-e" || arg == "--env"
      then next
      else if has_prefix arg "-e"
      then slice_from 2 arg
      else if has_char arg b'='
      then cut_after arg b'='
      else arg

  unfoldable pub handle_env : String → String → EnvArg
  unfolding resolve_env env_name
  handle_env arg next = record {
    skip = arg == "-e" || arg == "--env";
    env = resolve_env (env_name arg next);
  }

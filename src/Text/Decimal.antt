-- ===== src/Text/Decimal.antt =====
-- Go's `strconv` at decimal numbers: `ParseInt`, `Atoi` and `Itoa` for an `int` of 64 bits.
pub mod RoundTrip
use Prim.Native.Char.{Char, code}
use finch.Prelude.{
  ℕ, zero, suc, ◌+◌, ◌*◌, ◌-◌, ◌/◌, ◌%◌, ◌^◌, String, true, false, ◌&&◌, Option, none, some, leb,
  nat_eq, if◌then◌else◌, Result, ok, err, message,
}
use finch.Prelude.Int.{ℤ, pos, negsuc}

-- The digits of a number that fits in 63 bits; `none` for anything else.
unfoldable read_digits : ℕ → String → Option ℕ
read_digits n String.[] = some n
read_digits n (String.◌∷◌ c s) =
    if leb b'0' (code c) && leb (code c) b'9'
    then read_digits (n * 10 + (code c - b'0')) s
    else none

unfoldable number_of : String → Option ℕ
unfolding read_digits
number_of String.[] = none
number_of (String.◌∷◌ c s) = read_digits 0 (String.◌∷◌ c s)

negated : ℕ → ℤ
negated n = if nat_eq n 0 then pos 0 else negsuc (n - 1)

unfoldable in_range : ℕ → (ℕ → ℤ) → Option ℕ → Result ℤ
in_range limit sign none = err (message "invalid syntax")
in_range limit sign (some n) =
    if leb n limit then ok (sign n) else err (message "value out of range")

-- `strconv.ParseInt(s, 10, 64)`
unfoldable pub parse_int : String → Result ℤ
unfolding number_of negated in_range
parse_int String.[] = err (message "invalid syntax")
parse_int (String.◌∷◌ c s) =
    if nat_eq (code c) b'-'
    then in_range (2 ^ 63) negated (number_of s)
    else if nat_eq (code c) b'+'
    then in_range (2 ^ 63 - 1) pos (number_of s)
    else in_range (2 ^ 63 - 1) pos (number_of (String.◌∷◌ c s))

-- The character of a digit; nothing above 9 is asked for.
unfoldable digit : ℕ → Char
digit zero = "0"
digit (suc zero) = "1"
digit (suc (suc zero)) = "2"
digit (suc (suc (suc zero))) = "3"
digit (suc (suc (suc (suc zero)))) = "4"
digit (suc (suc (suc (suc (suc zero))))) = "5"
digit (suc (suc (suc (suc (suc (suc zero)))))) = "6"
digit (suc (suc (suc (suc (suc (suc (suc zero))))))) = "7"
digit (suc (suc (suc (suc (suc (suc (suc (suc zero)))))))) = "8"
digit n = "9"

-- The digits of `n` before the text; the fuel is more than the number of digits.
unfoldable pub show_digits : ℕ → ℕ → String → String
unfolding digit
show_digits zero n rest = rest
show_digits (suc f) n rest = elim (nat_eq (n / 10) 0) [
  | true ↦ String.◌∷◌ (digit (n % 10)) rest
  | false ↦ show_digits f (n / 10) (String.◌∷◌ (digit (n % 10)) rest)
]

-- `strconv.Itoa(n)` for an `n` that is not negative
unfoldable pub itoa : ℕ → String
unfolding show_digits
itoa n = show_digits (suc n) n ""

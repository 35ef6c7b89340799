-- ===== src/Text/Decimal/RoundTrip.antt =====
-- What `Itoa` writes is read back by `ParseInt`, with or without white space around it.
use Prim.Native.Char.{Char, code}
use finch.Prelude.{
  ℕ, zero, suc, ◌+◌, ◌*◌, ◌/◌, ◌%◌, ◌^◌, ◌<◌, ◌-◌, String, Bool, true, false, ◌&&◌, some, leb,
  nat_eq, ok, ◌≡◌, refl, sym, ap, ◌∙◌, arith,
}
use finch.Prelude.Int.{pos}
use finch.Text.{is_space, trim_left, trim_right, trim_space}
use finch.Text.Decimal.{digit, read_digits, number_of, in_range, parse_int, show_digits, itoa}

abbrev is_digit : Char → Bool
is_digit c = leb b'0' (code c) && leb (code c) b'9'

abbrev all_digits : String → Bool
all_digits String.[] = true
all_digits (String.◌∷◌ c s) = is_digit c && all_digits s

code-digit : (d : ℕ) → d < 10 → code (digit d) ≡ 48 + d
unfolding digit
code-digit zero h = refl
code-digit (suc zero) h = refl
code-digit (suc (suc zero)) h = refl
code-digit (suc (suc (suc zero))) h = refl
code-digit (suc (suc (suc (suc zero)))) h = refl
code-digit (suc (suc (suc (suc (suc zero))))) h = refl
code-digit (suc (suc (suc (suc (suc (suc zero)))))) h = refl
code-digit (suc (suc (suc (suc (suc (suc (suc zero))))))) h = refl
code-digit (suc (suc (suc (suc (suc (suc (suc (suc zero)))))))) h = refl
code-digit (suc (suc (suc (suc (suc (suc (suc (suc (suc zero))))))))) h = refl
code-digit (suc (suc (suc (suc (suc (suc (suc (suc (suc (suc d)))))))))) h = ground arith

is_digit-digit : (d : ℕ) → d < 10 → is_digit (digit d) ≡ true
is_digit-digit d h = rw (code-digit d h) (ground arith)

read_digits-cons :
    (k d : ℕ) (s : String)
    → d < 10
    → read_digits k (String.◌∷◌ (digit d) s) ≡ read_digits (k * 10 + d) s
unfolding read_digits
read_digits-cons k d s h =
    rw (is_digit-digit d h, code-digit d h) (ap (λ m. read_digits (k * 10 + m) s) (omega arith))

read_digits-show_digits :
    (f n : ℕ) (rest : String) → n < f → read_digits 0 (show_digits f n rest) ≡ read_digits n rest
unfolding show_digits
read_digits-show_digits zero n rest h = ground arith
read_digits-show_digits (suc f) n rest h =
    go (read_digits-show_digits f (n / 10) (String.◌∷◌ (digit (n % 10)) rest)) (nat_eq (n / 10) 0)
      refl
  where
    go :
        (n / 10 < f
          → read_digits 0 (show_digits f (n / 10) (String.◌∷◌ (digit (n % 10)) rest))
            ≡ read_digits (n / 10) (String.◌∷◌ (digit (n % 10)) rest))
        → (b : Bool) → nat_eq (n / 10) 0 ≡ b
        → read_digits 0 (elim b [
          | true ↦ String.◌∷◌ (digit (n % 10)) rest
          | false ↦ show_digits f (n / 10) (String.◌∷◌ (digit (n % 10)) rest)
        ])
          ≡ read_digits n rest
    go ih true e =
        read_digits-cons 0 (n % 10) rest (omega arith) ∙ ap (λ m. read_digits m rest) (ground arith)
    go ih false e =
        ih (ground arith)
        ∙ read_digits-cons (n / 10) (n % 10) rest (omega arith)
        ∙ ap (λ m. read_digits m rest) (omega arith)

-- A text of digits, with at least one.
IsNumber : String → Type 0
IsNumber s =
    (c : Char) × (r : String) × (s ≡ String.◌∷◌ c r) × (is_digit c ≡ true) × (all_digits r ≡ true)

show_digits-IsNumber :
    (f n : ℕ) (c : Char) (rest : String)
    → is_digit c ≡ true
    → all_digits rest ≡ true
    → IsNumber (show_digits f n (String.◌∷◌ c rest))
unfolding IsNumber show_digits
show_digits-IsNumber zero n c rest h r = (c, rest, refl, h, r)
show_digits-IsNumber (suc f) n c rest h r =
    go (show_digits-IsNumber f (n / 10) (digit (n % 10)) (String.◌∷◌ c rest) d both)
      (nat_eq (n / 10) 0)
  where
    both : all_digits (String.◌∷◌ c rest) ≡ true
    both = rw (h, r) refl

    d : is_digit (digit (n % 10)) ≡ true
    d = is_digit-digit (n % 10) (omega arith)

    go :
        IsNumber (show_digits f (n / 10) (String.◌∷◌ (digit (n % 10)) (String.◌∷◌ c rest)))
        → (b : Bool)
        → IsNumber (elim b [
          | true ↦ String.◌∷◌ (digit (n % 10)) (String.◌∷◌ c rest)
          | false ↦ show_digits f (n / 10) (String.◌∷◌ (digit (n % 10)) (String.◌∷◌ c rest))
        ])
    go ih true = (digit (n % 10), String.◌∷◌ c rest, refl, d, both)
    go ih false = ih

itoa-IsNumber : (n : ℕ) → IsNumber (itoa n)
unfolding IsNumber itoa show_digits
itoa-IsNumber n = go (nat_eq (n / 10) 0)
  where
    d : is_digit (digit (n % 10)) ≡ true
    d = is_digit-digit (n % 10) (omega arith)

    go :
        (b : Bool)
        → IsNumber (elim b [
          | true ↦ String.◌∷◌ (digit (n % 10)) ""
          | false ↦ show_digits n (n / 10) (String.◌∷◌ (digit (n % 10)) "")
        ])
    go true = (digit (n % 10), "", refl, d, refl)
    go false = show_digits-IsNumber n (n / 10) (digit (n % 10)) "" d refl

is_space-is_digit : (c : Char) → is_digit c ≡ true → is_space c ≡ false
unfolding is_space
is_space-is_digit c h = ground arith

trim_right_of_digits : (s : String) → all_digits s ≡ true → trim_right s ≡ s
unfolding trim_right
trim_right_of_digits String.[] h = refl
trim_right_of_digits (String.◌∷◌ c s) h =
    rw (is_space-is_digit c (ground arith))
      (ap (String.◌∷◌ c) (trim_right_of_digits s (ground arith)))

trim_space-cons :
    (c : Char) (r : String)
    → is_digit c ≡ true
    → all_digits r ≡ true
    → trim_space (String.◌∷◌ c r) ≡ String.◌∷◌ c r
unfolding trim_space trim_left
trim_space-cons c r d a =
    rw (is_space-is_digit c d) (trim_right_of_digits (String.◌∷◌ c r) (rw (d, a) refl))

parse_int-cons :
    (c : Char) (r : String) (n : ℕ)
    → is_digit c ≡ true
    → read_digits 0 (String.◌∷◌ c r) ≡ some n
    → n < 2 ^ 63
    → parse_int (String.◌∷◌ c r) ≡ ok (pos n)
unfolding parse_int number_of in_range
parse_int-cons c r n d h b = rw (no_sign, no_plus, h, fits) refl
  where
    no_sign : nat_eq (code c) b'-' ≡ false
    no_sign = ground arith

    no_plus : nat_eq (code c) b'+' ≡ false
    no_plus = ground arith

    fits : leb n (2 ^ 63 - 1) ≡ true
    fits = ground arith

read_digits-itoa : (n : ℕ) → read_digits 0 (itoa n) ≡ some n
unfolding itoa read_digits
read_digits-itoa n = read_digits-show_digits (suc n) n "" (omega arith)

-- What `Itoa` writes for a number that an `int` holds, with or without white space around it,
-- `Atoi` reads as that number.
pub parse_int-itoa : (n : ℕ) → n < 2 ^ 63 → parse_int (trim_space (itoa n)) ≡ ok (pos n)
unfolding IsNumber
parse_int-itoa n b =
    let (c, r, e, d, a) = itoa-IsNumber n in
    rw (e, trim_space-cons c r d a)
      (parse_int-cons c r n d (sym (ap (read_digits 0) e) ∙ read_digits-itoa n) b)

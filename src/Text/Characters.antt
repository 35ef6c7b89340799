-- ===== src/Text/Characters.antt =====
-- The characters of UTF-8 in a text of bytes.
use Prim.Native.Char.{code}
use finch.Prelude.{
  ℕ, zero, suc, String, Bool, true, false, ◌&&◌, ◌||◌, List, [], ◌∷◌, leb, not, nat_eq,
  if◌then◌else◌,
}
use finch.Text.{cons_head}

-- Whether the first byte is between two bounds.
starts_between : ℕ → ℕ → String → Bool
starts_between low high String.[] = false
starts_between low high (String.◌∷◌ c s) = leb low (code c) && leb (code c) high

rest_of : String → String
rest_of String.[] = ""
rest_of (String.◌∷◌ c s) = s

-- `n` bytes of the kind that continue a character in UTF-8.
continued : ℕ → String → Bool
unfolding starts_between rest_of
continued zero s = true
continued (suc n) s = starts_between 128 191 s && continued n (rest_of s)

-- The second byte and those after it, behind a first byte.
follows : ℕ → ℕ → ℕ → String → Bool
unfolding starts_between rest_of continued
follows low high n s = starts_between low high s && continued n (rest_of s)

-- How many bytes `utf8.DecodeRuneInString` takes with the byte `b` from what stands behind it; none
-- where the encoding is not valid.
unfoldable more_bytes : ℕ → String → ℕ
unfolding follows
more_bytes b s =
    if leb 194 b && leb b 223 && follows 128 191 0 s
    then 1
    else if (nat_eq b 224 && follows 160 191 1 s)
        || ((leb 225 b && leb b 239 && not (nat_eq b 237) && follows 128 191 1 s)
            || (nat_eq b 237 && follows 128 159 1 s))
    then 2
    else if (nat_eq b 240 && follows 144 191 2 s)
        || ((leb 241 b && leb b 243 && follows 128 191 2 s)
            || (nat_eq b 244 && follows 128 143 2 s))
    then 3
    else 0

-- The characters of a text of which the first one has `n` bytes left.
unfoldable characters_from : ℕ → String → List String
unfolding more_bytes cons_head
characters_from n String.[] = []
characters_from zero (String.◌∷◌ c s) =
    let n = more_bytes (code c) s in
    let rest = characters_from n s in
    if nat_eq n 0 then String.◌∷◌ c "" ∷ rest else cons_head c rest
characters_from (suc zero) (String.◌∷◌ c s) = String.◌∷◌ c "" ∷ characters_from zero s
characters_from (suc (suc n)) (String.◌∷◌ c s) = cons_head c (characters_from (suc n) s)

-- `strings.Split(s, "")`: the characters of UTF-8; a byte that is in none stands alone
unfoldable pub characters : String → List String
unfolding characters_from
characters s = characters_from zero s

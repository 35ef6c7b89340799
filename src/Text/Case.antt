-- ===== src/Text/Case.antt =====
-- Letters and their case: Go's `ToUpper`, and the names of HTTP headers.
use Prim.Native.Char.{Char, code}
use finch.Prelude.{String, Bool, true, nat_eq, if◌then◌else◌, ◌≡◌, refl}

-- The character at the place in `to` that `c` has in `from`; `c` where it has none.
translate : Char → String → String → Char
translate c String.[] to = c
translate c (String.◌∷◌ f from) String.[] = c
translate c (String.◌∷◌ f from) (String.◌∷◌ t to) =
    let rest = translate c from to in if nat_eq (code c) (code f) then t else rest

upper : Char → Char
unfolding translate
upper c = translate c "abcdefghijklmnopqrstuvwxyz" "ABCDEFGHIJKLMNOPQRSTUVWXYZ"

pub lower : Char → Char
unfolding translate
lower c = translate c "ABCDEFGHIJKLMNOPQRSTUVWXYZ" "abcdefghijklmnopqrstuvwxyz"

-- `strings.ToUpper(s)`, at ASCII's letters
unfoldable pub to_upper : String → String
unfolding upper
to_upper String.[] = ""
to_upper (String.◌∷◌ c s) = String.◌∷◌ (upper c) (to_upper s)

-- `strings.ToLower(s)`, at ASCII's letters
unfoldable pub to_lower : String → String
unfolding lower
to_lower String.[] = ""
to_lower (String.◌∷◌ c s) = String.◌∷◌ (lower c) (to_lower s)

pub to_lower-one : (c : Char) → to_lower (String.◌∷◌ c "") ≡ String.◌∷◌ (lower c) ""
unfolding to_lower
to_lower-one c = refl

-- The bytes of a header's name: upper case at the start and behind a dash, else lower case.
canonical_from : Bool → String → String
unfolding upper lower
canonical_from first String.[] = ""
canonical_from first (String.◌∷◌ c s) =
    String.◌∷◌ (if first then upper c else lower c) (canonical_from (nat_eq (code c) b'-') s)

-- `textproto.CanonicalMIMEHeaderKey(s)`, at letters, digits, `_` and `-`
unfoldable pub canonical_header_key : String → String
unfolding canonical_from
canonical_header_key s = canonical_from true s

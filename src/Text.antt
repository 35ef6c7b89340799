-- ===== src/Text.antt =====
-- Go's `strings` package, as far as the program uses it. A `String` stands for a Go string, each
-- character for one byte. White space is ASCII's.
pub mod FilePath
pub mod Laws
pub mod Contains
pub mod Case
pub mod Characters
pub mod Suffix
pub mod Decimal
use Prim.Native.Char.{Char, code}
use finch.Prelude.{
  ℕ, zero, suc, ◌-◌, Option, none, some, String, ◌<>◌, Bool, true, false, ◌&&◌, ◌||◌, List, [], ◌∷◌,
  leb, not, nat_eq, if◌then◌else◌, ◌==◌,
}

-- `len(s)`
unfoldable pub len : String → ℕ
len String.[] = 0
len (String.◌∷◌ c s) = suc (len s)

-- `s[n:]`
unfoldable pub slice_from : ℕ → String → String
slice_from zero s = s
slice_from (suc n) String.[] = ""
slice_from (suc n) (String.◌∷◌ c s) = slice_from n s

-- `s[:n]`
unfoldable pub slice_to : ℕ → String → String
slice_to zero s = ""
slice_to (suc n) String.[] = ""
slice_to (suc n) (String.◌∷◌ c s) = String.◌∷◌ c (slice_to n s)

-- `strings.HasPrefix(s, prefix)`
unfoldable pub has_prefix : String → String → Bool
has_prefix s String.[] = true
has_prefix String.[] (String.◌∷◌ p ps) = false
has_prefix (String.◌∷◌ c s) (String.◌∷◌ p ps) = nat_eq (code c) (code p) && has_prefix s ps

-- `strings.Contains(s, sub)`
unfoldable pub contains_text : String → String → Bool
unfolding has_prefix
contains_text String.[] sub = has_prefix "" sub
contains_text (String.◌∷◌ c s) sub = has_prefix (String.◌∷◌ c s) sub || contains_text s sub

-- `strings.Contains(s, sep)` for a separator of one byte
unfoldable pub has_char : String → ℕ → Bool
has_char String.[] sep = false
has_char (String.◌∷◌ c s) sep = nat_eq (code c) sep || has_char s sep

-- `before` and `after` of `strings.Cut(s, sep)`; `found` is `has_char s sep`
unfoldable pub cut_before : String → ℕ → String
cut_before String.[] sep = ""
cut_before (String.◌∷◌ c s) sep =
    let rest = cut_before s sep in if nat_eq (code c) sep then "" else String.◌∷◌ c rest

unfoldable pub cut_after : String → ℕ → String
cut_after String.[] sep = ""
cut_after (String.◌∷◌ c s) sep =
    let rest = cut_after s sep in if nat_eq (code c) sep then s else rest

-- `s[:i]` and `s[i+1:]` for `i` of `strings.LastIndex(s, sep)`; `none` where that is -1
unfoldable pub cut_last : String → ℕ → Option (String × String)
cut_last String.[] sep = none
cut_last (String.◌∷◌ c s) sep = elim (cut_last s sep) [
  | some (before, after) ↦ some (String.◌∷◌ c before, after)
  | none ↦ if nat_eq (code c) sep then some ("", s) else none
]

pub cons_head : Char → List String → List String
cons_head c [] = String.◌∷◌ c "" ∷ []
cons_head c (w ∷ ws) = String.◌∷◌ c w ∷ ws

-- `strings.Split(s, sep)` for a separator of one byte; never empty
unfoldable pub split : String → ℕ → List String
unfolding cons_head
split String.[] sep = "" ∷ []
split (String.◌∷◌ c s) sep =
    let rest = split s sep in if nat_eq (code c) sep then "" ∷ rest else cons_head c rest

-- `strings.Join(parts, sep)`
unfoldable pub join : String → List String → String
join sep [] = ""
join sep (w ∷ []) = w
join sep (w ∷ (v ∷ ws)) = w <> (sep <> join sep (v ∷ ws))

unfoldable is_space : Char → Bool
is_space c = nat_eq (code c) 32 || (leb 9 (code c) && leb (code c) 13)

unfoldable trim_left : String → String
unfolding is_space
trim_left String.[] = ""
trim_left (String.◌∷◌ c s) = let rest = trim_left s in if is_space c then rest else String.◌∷◌ c s

unfoldable trim_right : String → String
unfolding is_space ◌==◌
trim_right String.[] = ""
trim_right (String.◌∷◌ c s) =
    let rest = trim_right s in if is_space c && rest == "" then "" else String.◌∷◌ c rest

-- `strings.TrimSpace(s)`
unfoldable pub trim_space : String → String
unfolding trim_left trim_right
trim_space s = trim_right (trim_left s)

non_empty : List String → List String
unfolding ◌==◌
non_empty [] = []
non_empty (w ∷ ws) = let rest = non_empty ws in if w == "" then rest else w ∷ rest

-- `strings.Fields(s)` for the command names, which hold single spaces only
unfoldable pub fields : String → List String
unfolding split non_empty
fields s = non_empty (split s 32)

-- `strings.TrimRight(s, cut)` for a cutset of one byte
unfoldable pub trim_right_char : String → ℕ → String
unfolding ◌==◌
trim_right_char String.[] sep = ""
trim_right_char (String.◌∷◌ c s) sep =
    let rest = trim_right_char s sep in
    if nat_eq (code c) sep && rest == "" then "" else String.◌∷◌ c rest

-- `strings.TrimLeft(s, cut)` for a cutset of one byte
unfoldable pub trim_left_char : String → ℕ → String
trim_left_char String.[] sep = ""
trim_left_char (String.◌∷◌ c s) sep =
    let rest = trim_left_char s sep in if nat_eq (code c) sep then rest else String.◌∷◌ c s

-- `strings.HasSuffix(s, suffix)`
unfoldable pub has_suffix : String → String → Bool
unfolding len slice_from ◌==◌
has_suffix s suffix = leb (len suffix) (len s) && slice_from (len s - len suffix) s == suffix

-- `strings.TrimSuffix(s, suffix)`
unfoldable pub trim_suffix : String → String → String
unfolding has_suffix slice_to len
trim_suffix s suffix = if has_suffix s suffix then slice_to (len s - len suffix) s else s

-- `strings.TrimPrefix(s, prefix)`
unfoldable pub trim_prefix : String → String → String
unfolding has_prefix slice_from len
trim_prefix s p = if has_prefix s p then slice_from (len p) s else s

-- `strings.TrimRight(s, cutset)` for a set of one byte
unfoldable pub trim_right_byte : String → ℕ → String
unfolding ◌==◌
trim_right_byte String.[] b = ""
trim_right_byte (String.◌∷◌ c s) b =
    let rest = trim_right_byte s b in
    if nat_eq (code c) b && rest == "" then "" else String.◌∷◌ c rest

-- The text behind the first `k` bytes, without any mention of `sub`.
without : ℕ → String → String → String
unfolding has_prefix len
without k sub String.[] = ""
without (suc k) sub (String.◌∷◌ c s) = without k sub s
without zero sub (String.◌∷◌ c s) = elim (has_prefix (String.◌∷◌ c s) sub) [
  | true ↦ without (len sub - 1) sub s
  | false ↦ String.◌∷◌ c (without zero sub s)
]

-- `strings.ReplaceAll(s, sub, "")` for a `sub` that is not empty
unfoldable pub remove_all : String → String → String
unfolding without
remove_all s sub = without zero sub s

replaced : ℕ → String → String → String → String
unfolding has_prefix len
replaced k old new String.[] = ""
replaced (suc k) old new (String.◌∷◌ c s) = replaced k old new s
replaced zero old new (String.◌∷◌ c s) = elim (has_prefix (String.◌∷◌ c s) old) [
  | true ↦ new <> replaced (len old - 1) old new s
  | false ↦ String.◌∷◌ c (replaced zero old new s)
]

-- `strings.ReplaceAll(s, old, new)` for an `old` that is not empty
unfoldable pub replace_all : String → String → String → String
unfolding replaced
replace_all s old new = replaced zero old new s

-- `strings.ReplaceAll(s, old, new)` for a byte and a byte
unfoldable pub replace_byte : String → ℕ → Char → String
replace_byte String.[] old new = ""
replace_byte (String.◌∷◌ c s) old new =
    let rest = replace_byte s old new in
    if nat_eq (code c) old then String.◌∷◌ new rest else String.◌∷◌ c rest

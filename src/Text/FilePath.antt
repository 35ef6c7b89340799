-- ===== src/Text/FilePath.antt =====
-- Go's `path` and `path/filepath` on Unix: `Clean`, `Join` and `Dir`.
use Prim.Native.Char.{code}
use finch.Prelude.{String, ◌<>◌, Bool, not, nat_eq, ◌&&◌, List, [], ◌∷◌, ◌==◌, if◌then◌else◌}
use finch.Text.{split, has_prefix, has_char, join}

-- The components that are kept, the last one first. `..` takes a name away; at the root it is
-- dropped, and at the start of a relative path it stays.
clean_parts : Bool → List String → List String → List String
clean_parts rooted kept [] = kept
clean_parts rooted kept (p ∷ ps) = clean_parts rooted (keep kept) ps
  where
    up : List String → List String
    up [] = if rooted then [] else ".." ∷ []
    up (k ∷ ks) = if k == ".." then ".." ∷ (k ∷ ks) else ks

    keep : List String → List String
    keep ks = if p == "" then ks else if p == "." then ks else if p == ".." then up ks else p ∷ ks

backwards : List String → List String → List String
backwards out [] = out
backwards out (p ∷ ps) = backwards (p ∷ out) ps

-- `filepath.Clean(path)`
unfoldable pub clean : String → String
unfolding clean_parts backwards ◌==◌ split has_prefix join
clean path =
    let rooted = has_prefix path "/" in
    let body = join "/" (backwards [] (clean_parts rooted [] (split path b'/'))) in
    if rooted then "/" <> body else if body == "" then "." else body

non_empty_parts : List String → List String
non_empty_parts [] = []
non_empty_parts (w ∷ ws) = let rest = non_empty_parts ws in if w == "" then rest else w ∷ rest

-- `filepath.Join(parts...)`
unfoldable pub join_path : List String → String
unfolding clean non_empty_parts
join_path parts =
    let body = join "/" (non_empty_parts parts) in if body == "" then "" else clean body

drop_last : List String → List String
drop_last [] = []
drop_last (w ∷ []) = []
drop_last (w ∷ (v ∷ ws)) = w ∷ drop_last (v ∷ ws)

-- `filepath.Dir(path)`: what stands before the last slash, cleaned.
unfoldable pub dir : String → String
unfolding clean drop_last
dir path =
    let parts = drop_last (split path b'/') in
    if join "/" parts == "" && has_prefix path "/" then "/" else clean (join "/" parts)

last_part : String → List String → String
last_part w [] = w
last_part w (v ∷ vs) = last_part v vs

-- `filepath.Base(path)`: the last component, without the slashes behind it.
unfoldable pub base : String → String
unfolding last_part non_empty_parts ◌==◌ split
base path = if path == "" then "." else last_part "/" (non_empty_parts (split path b'/'))

-- `filepath.Ext(path)`: from the last dot of the last component on.
unfoldable pub ext : String → String
unfolding ◌==◌ has_char
ext String.[] = ""
ext (String.◌∷◌ c s) =
    let rest = ext s in
    if not (rest == "")
    then rest
    else if nat_eq (code c) b'.' && not (has_char s b'/')
    then String.◌∷◌ c s
    else ""

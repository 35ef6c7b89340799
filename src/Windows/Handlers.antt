-- ===== src/Windows/Handlers.antt =====
-- The handlers of the options that have paths for values.
use finch.Prelude.{
  String, ◌<>◌, ◌==◌, not, ◌||◌, Option, none, some, List, [], ◌∷◌, ◌-◌, if◌then◌else◌, lookup,
  insert, delete, get_or, is_empty, Result, ok, err, panicked, message, context, ◌>>=◌,
}
use finch.Text.{
  len, slice_from, slice_to, has_char, has_suffix, cut_before, cut_after, cut_last, split, join,
  trim_space,
}
use finch.Nerdctl.Handlers.{ArgHandler, parse_mount, map_to_string}
use finch.Windows.Paths.{WinDeps, convert_to_wsl_path}

-- What goes back into `args[index]` or `args[index+1]`; `none` where nothing does.
abbrev pub put_left : String → Option String → String
put_left arg none = arg
put_left arg (some v) = cut_before arg b'=' <> ("=" <> v)

abbrev pub put_right : String → Option String → String
put_right next none = next
put_right next (some v) = v

-- The value of an option stands behind its `=`, or in the next argument.
unfoldable pub with_value :
    (String → Result (Option String)) → String → Option String → Result (String × Option String)
unfolding has_char cut_before cut_after
with_value f arg none =
    if has_char arg b'='
    then (do v ← f (cut_after arg b'='); ok (put_left arg v, none))
    else err (message ("invalid positional parameter for " <> arg))
with_value f arg (some next) =
    if has_char arg b'='
    then (do v ← f (cut_after arg b'='); ok (put_left arg v, some next))
    else (do v ← f next; ok (arg, some (put_right next v)))

-- `m[strings.TrimSpace(parts[0])] = strings.TrimSpace(parts[1])`
abbrev pub add_option : List String → List (String × String) → Result (List (String × String))
add_option [] m = panicked
add_option (k ∷ []) m = panicked
add_option (k ∷ (v ∷ rest)) m = ok (insert (trim_space k) (trim_space v) m)

unfoldable pub parse_entries :
    List String → List (String × String) → Result (List (String × String))
unfolding split trim_space insert
parse_entries [] m = ok m
parse_entries (e ∷ es) m = do m' ← add_option (split e b'=') m; parse_entries es m'

-- `cleanArg` and `readWrite`
unfoldable pub split_mode : String → String × String
unfolding has_suffix slice_to slice_from len
split_mode v =
    if has_suffix v ":ro" || has_suffix v ":rw"
    then (slice_to (len v - 3) v, slice_from (len v - 3) v)
    else if has_suffix v ":rro"
    then (slice_to (len v - 4) v, slice_from (len v - 4) v)
    else (v, "")

module _ (w : WinDeps) where
  unfoldable pub rewrite_file_path : String → Result (Option String)
  unfolding convert_to_wsl_path
  rewrite_file_path v = do p ← convert_to_wsl_path w v; ok (some p)

  unfoldable pub handle_file_path : ArgHandler
  unfolding with_value rewrite_file_path
  handle_file_path docker_compat arg next = with_value rewrite_file_path arg next

  -- The value of `-v`, its mode apart.
  unfoldable pub rewrite_bind : String → String → Option (String × String) → Result (Option String)
  unfolding has_char convert_to_wsl_path ◌==◌
  rewrite_bind v mode none = ok none
  rewrite_bind v mode (some (host_path, container_path)) =
      if not (has_char host_path b'\\') || host_path == "" then ok none else (do
        path ← w.file_path_abs host_path
        p ← context ("could not get volume host path for " <> v) (convert_to_wsl_path w path)
        ok (some (p <> (":" <> (container_path <> mode)))))

  unfoldable pub rewrite_volume : String → Result (Option String)
  unfolding rewrite_bind split_mode cut_last
  rewrite_volume v =
      let (clean_arg, mode) = split_mode v in rewrite_bind v mode (cut_last clean_arg b':')

  unfoldable pub handle_volume : ArgHandler
  unfolding with_value rewrite_volume
  handle_volume docker_compat arg next = with_value rewrite_volume arg next

  module _ (iterate : List (String × String) → List (String × String)) where
    -- The path under a key, in the text of all entries.
    unfoldable pub rewrite_entry :
        String → List (String × String) → Option String → Result (Option String)
    unfolding convert_to_wsl_path map_to_string insert
    rewrite_entry key m none = ok none
    rewrite_entry key m (some path) = do
      p ← convert_to_wsl_path w path
      ok (some (map_to_string iterate (insert key p m)))

    unfoldable pub rewrite_option : String → String → Result (Option String)
    unfolding parse_entries rewrite_entry lookup split
    rewrite_option key v = do
      m ← parse_entries (split v b',') []
      rewrite_entry key m (lookup key m)

    unfoldable pub handle_output_option : ArgHandler
    unfolding with_value rewrite_option
    handle_output_option docker_compat arg next = with_value (rewrite_option "dest") arg next

    unfoldable pub handle_secret_option : ArgHandler
    unfolding with_value rewrite_option
    handle_secret_option docker_compat arg next = with_value (rewrite_option "src") arg next

    -- The path is under `src`, or under `source` where there is no `src`.
    abbrev pub source_key : Option String → String
    source_key none = "source"
    source_key (some path) = "src"

    abbrev pub or_source : Option String → Option String → Option String
    or_source none o = o
    or_source (some path) o = some path

    unfoldable pub convert_source :
        String → List (String × String) → Option String → Result (List (String × String))
    unfolding convert_to_wsl_path insert has_char
    convert_source key m none = ok m
    convert_source key m (some path) =
        if has_char path b'\\'
        then (do p ← convert_to_wsl_path w path; ok (insert key p m))
        else ok m

    unfoldable pub handle_bind_mount_path : List (String × String) → Result (List (String × String))
    unfolding convert_source lookup
    handle_bind_mount_path m =
        let src = lookup "src" m in
        convert_source (source_key src) m (or_source src (lookup "source" m))

    -- The body of `handleBindMounts` behind its value.
    unfoldable pub rewrite_mount : String → Result (Option String)
    unfolding parse_mount handle_bind_mount_path map_to_string delete lookup ◌==◌
    rewrite_mount v =
        let m = parse_mount v in
        if get_or (lookup "type" m.entries) "" == "bind"
        then (do
          entries ← handle_bind_mount_path (delete "consistency" m.entries)
          let s = map_to_string iterate entries
          ok (some (if is_empty m.bare then s else s <> ("," <> join "," m.bare))))
        else ok none

    unfoldable pub handle_bind_mounts : ArgHandler
    unfolding with_value rewrite_mount
    handle_bind_mounts docker_compat arg next = with_value rewrite_mount arg next

-- ===== src/Nerdctl/Handlers.antt =====
-- The handlers of nerdctl.go: they rewrite one argument, its neighbour, or a whole command.
use finch.Prelude.{
  String, ◌<>◌, Bool, true, false, ◌&&◌, ◌||◌, Option, none, some, List, [], ◌∷◌, ◌++◌, map, ◌==◌,
  if◌then◌else◌, contains, lookup, insert, delete, is_empty, get_or, Result, ok, err, message,
  panicked,
}
use finch.Text.{contains_text, has_char, cut_before, cut_after, split, join, trim_space}

-- An argument handler gets `args[index]` and `args[index+1]`, if there is one, and returns what it
-- leaves there. The first argument is `fc.DockerCompat`.
abbrev pub ArgHandler : Type 0
ArgHandler = Bool → String → Option String → Result (String × Option String)

-- What a command handler may change: the name, the arguments and `inspectType`.
pub record Command : Type 0 where
  pub name : String
  pub args : List String
  pub inspect_type : String

abbrev pub CommandHandler : Type 0
CommandHandler = Bool → Command → Result Command

unfoldable pub handle_docker_build_load : ArgHandler
handle_docker_build_load docker_compat arg next =
    ok (if docker_compat then "--output=type=docker" else arg, next)

abbrev buildx_subcommands : List String
buildx_subcommands =
    "bake" ∷ "create" ∷ "debug" ∷ "du" ∷ "imagetools" ∷ "inspect" ∷ "ls" ∷ "prune" ∷ "rm" ∷ "stop"
    ∷ "use" ∷ "version" ∷ []

buildx : Command → List String → Result Command
buildx c [] = panicked
buildx c (sub ∷ rest) =
    if contains buildx_subcommands sub
    then err (message ("unsupported buildx command: " <> sub))
    else ok (record c { name = "build"; args = if sub == "build" then rest else c.args })

-- Reading the first argument faults where there is none.
unfoldable pub handle_buildx : CommandHandler
unfolding buildx
handle_buildx docker_compat c =
    if docker_compat && c.name == "buildx" then buildx c c.args else ok c

-- The loop of `handleDockerCompatInspect` collects these.
pub record Inspect : Type 0 where
  pub kind : String
  pub size : Bool
  pub saved : List String

second_part : String → String
second_part arg = get_second (split arg b'=')
  where
    get_second : List String → String
    get_second [] = ""
    get_second (a ∷ []) = ""
    get_second (a ∷ (b ∷ rest)) = b

unfoldable pub scan_inspect : List String → Inspect → Inspect
unfolding second_part
scan_inspect [] s = s
scan_inspect (arg ∷ []) s =
    if contains_text arg "--type" && has_char arg b'='
    then record s { kind = second_part arg }
    else if arg == "--size" || arg == "-s"
    then record s { size = true }
    else record s { saved = s.saved ++ arg ∷ [] }
scan_inspect (arg ∷ (next ∷ rest)) s =
    let after_pair = scan_inspect rest (record s { kind = next }) in
    let after_type = scan_inspect (next ∷ rest) (record s { kind = second_part arg }) in
    let after_size = scan_inspect (next ∷ rest) (record s { size = true }) in
    let after_saved = scan_inspect (next ∷ rest) (record s { saved = s.saved ++ arg ∷ [] }) in
    if arg == "--type"
    then after_pair
    else if contains_text arg "--type" && has_char arg b'='
    then after_type
    else if arg == "--size" || arg == "-s"
    then after_size
    else after_saved

mode_docker_compat : String
mode_docker_compat = "--mode=dockercompat"

inspect_command : Command → Inspect → Result Command
unfolding mode_docker_compat
inspect_command c s =
    if s.kind == "image"
    then ok (record {
      name = "image inspect";
      args = mode_docker_compat ∷ s.saved;
      inspect_type = "image";
    })
    else if s.kind == "volume"
    then ok (record {
      name = "volume inspect";
      args = if s.size then "--size" ∷ s.saved else s.saved;
      inspect_type = "volume";
    })
    else if s.kind == "container" || s.kind == ""
    then ok (record {
      name = "inspect";
      args = mode_docker_compat ∷ s.saved;
      inspect_type = "container";
    })
    else err (message ("unsupported inspect type: " <> s.kind))

-- The arguments are no nil slice: a list stands for the slice that cobra hands over.
unfoldable pub handle_docker_compat_inspect : CommandHandler
unfolding inspect_command
handle_docker_compat_inspect docker_compat c =
    if docker_compat
    then inspect_command c (scan_inspect c.args (record { kind = ""; size = false; saved = [] }))
    else ok c

-- The value of `--mount` as a map, with the entries that have no `=` apart.
pub record Mount : Type 0 where
  pub entries : List (String × String)
  pub bare : List String

add_entry : Mount → List String → Mount
add_entry m (k ∷ (v ∷ rest)) = record m { entries = insert (trim_space k) (trim_space v) m.entries }
add_entry m parts = record m { bare = m.bare ++ parts }

parse_entries : List String → Mount → Mount
unfolding add_entry
parse_entries [] m = m
parse_entries (e ∷ es) m = parse_entries es (add_entry m (split e b'='))

unfoldable pub parse_mount : String → Mount
unfolding parse_entries
parse_mount v = parse_entries (split v b',') (record { entries = []; bare = [] })

module _ (iterate : List (String × String) → List (String × String)) where
  unfoldable pub map_to_string : List (String × String) → String
  map_to_string m = join "," (map (λ (k, v). k <> ("=" <> v)) (iterate m))

  -- The value that replaces a bind mount's. `handleBindMountPath` does nothing on macOS.
  unfoldable pub mount_value : Mount → String
  unfolding map_to_string
  mount_value m =
      let s = map_to_string (delete "consistency" m.entries) in
      if is_empty m.bare then s else s <> ("," <> join "," m.bare)

  -- `none` where the mount is no bind mount and stays as it is.
  unfoldable pub rewrite_mount : String → Option String
  unfolding mount_value
  rewrite_mount v =
      let m = parse_mount v in
      if get_or (lookup "type" m.entries) "" == "bind" then some (mount_value m) else none

  unfoldable pub handle_bind_mounts : ArgHandler
  handle_bind_mounts docker_compat arg next =
      if has_char arg b'='
      then elim (rewrite_mount (cut_after arg b'=')) [
        | none ↦ ok (arg, next)
        | some s ↦ ok (cut_before arg b'=' <> ("=" <> s), next)
      ]
      else elim next [
        | none ↦ err (message ("invalid positional parameter for " <> arg))
        | some v ↦ elim (rewrite_mount v) [ none ↦ ok (arg, some v) | some s ↦ ok (arg, some s) ]
      ]

  -- `argHandlerMap[cmdName]`, to which macOS adds nothing
  unfoldable pub arg_handler_map : String → List (String × ArgHandler)
  arg_handler_map name =
      if name == "image build"
      then ("--load", handle_docker_build_load) ∷ []
      else if name == "container run"
      then ("--mount", handle_bind_mounts) ∷ []
      else []

abbrev pub alias_map : List (String × String)
alias_map = ("build", "image build") ∷ ("run", "container run") ∷ ("cp", "container cp") ∷ []

abbrev pub command_handler_map : List (String × CommandHandler)
command_handler_map = ("buildx", handle_buildx) ∷ ("inspect", handle_docker_compat_inspect) ∷ []

-- ===== src/Nerdctl/Scan.antt =====
-- The loop of `nerdctlCommand.run` over the arguments of `container run`, `exec` and `compose`.
pub mod PassThrough
pub mod Faults
use finch.Prelude.{
  ℕ, zero, suc, ◌+◌, ◌-◌, String, ◌<>◌, Bool, true, false, ◌&&◌, ◌||◌, not, Option, none, some,
  List, [], ◌∷◌, ◌++◌, ltb, nat_eq, ◌==◌, if◌then◌else◌, contains, lookup, head?, get_or, Result,
  ok, err, panicked, ◌>>=◌,
}
use finch.Text.Characters.{characters}
use finch.Text.{len, has_prefix, slice_from, slice_to, has_char, cut_before, cut_after}
use finch.Nerdctl.Deps.{Deps}
use finch.Nerdctl.Flags.{FlagSets, ArgKind, classify}
use finch.Nerdctl.Values.{FlagArg, handle_flag_arg, EnvArg, handle_env}
use finch.Nerdctl.EnvFile.{handle_env_file}
use finch.Nerdctl.Handlers.{ArgHandler}

-- The variables of the loop. `seen` is `args` up to the current index, as the loop has left it.
pub record Scan : Type 0 where
  pub nerdctl_args : List String
  pub envs : List String
  pub file_envs : List String
  pub cmd_args : List String
  pub skip : Bool
  pub last_opt : Bool
  -- `SetLevel(flog.Debug)` was called
  pub debug : Bool
  pub seen : List String

abbrev pub start : Scan
start = record {
  nerdctl_args = [];
  envs = [];
  file_envs = [];
  cmd_args = [];
  skip = false;
  last_opt = false;
  debug = false;
  seen = [];
}

-- `firstOptPos`, an `int` that may be -1.
pub data OptPos : Type 0 where
  at : ℕ → OptPos
  nowhere : OptPos

unfoldable pub first_opt_pos : List String → OptPos
first_opt_pos [] = at 0
first_opt_pos (a ∷ []) = if has_prefix a "-" then at 0 else nowhere
first_opt_pos (a ∷ (b ∷ rest)) =
    if a == "run" && has_prefix b "-" then at 1 else if has_prefix a "-" then at 0 else nowhere

-- `i < firstOptPos`
unfoldable pub before : ℕ → OptPos → Bool
before i (at p) = ltb i p
before i nowhere = false

-- `resolveIP` of nerdctl_darwin.go. A host with no colon has no `parts[1]`.
module _ (d : Deps) where
  unfoldable pub resolve_ip : String → Result String
  resolve_ip host =
      if has_char host b':'
      then if cut_after host b':' == d.host_gateway_name
        then (do g ← d.gateway; ok (cut_before host b':' <> (":" <> g)))
        else ok host
      else panicked

-- The two marks of `handleMultipleShortFlags`, set by a scan of the characters of the argument.
pub record Group : Type 0 where
  pub mid : Bool
  pub final : Bool

group_char : FlagSets → ℕ → ℕ → String → Group → Group
group_char sets last i c g =
    if c == "-"
    then g
    else if not (nat_eq i last) && contains sets.short_arg_flags ("-" <> c)
    then record g { mid = true }
    else if nat_eq i last && contains sets.short_arg_flags ("-" <> c)
    then record g { final = true }
    else g

scan_group : FlagSets → ℕ → ℕ → List String → Group → Group
unfolding group_char
scan_group sets last i [] g = g
scan_group sets last i (c ∷ cs) g = scan_group sets last (suc i) cs (group_char sets last i c g)

-- `handleMultipleShortFlags`: what is left in `args[index]` and in `args[index+1]`.
unfoldable pub handle_multiple_short_flags :
    FlagSets → String → Option String → Result (String × String)
unfolding scan_group characters
handle_multiple_short_flags sets arg none = panicked
handle_multiple_short_flags sets arg (some next) =
    let last = len arg - 1 in
    let g = scan_group sets last 0 (characters arg) (record { mid = false; final = false }) in
    if g.mid
    then ok (arg, next)
    else if g.final
    then ok (slice_to last arg, ("-" <> slice_from last arg) <> next)
    else ok (arg, next)

-- One round of the loop leaves its variables, `args[i]` and `args[i+1]`.
pub record Round : Type 0 where
  pub scan : Scan
  pub arg : String
  pub next : Option String

module _ (d : Deps) (sets : FlagSets) (pos : OptPos) where
  abbrev emit : Scan → String → Scan
  emit s arg = record s { nerdctl_args = s.nerdctl_args ++ arg ∷ [] }

  add_flag : Scan → FlagArg → Scan
  add_flag s f =
      if f.key == ""
      then record s { skip = f.skip }
      else record s { skip = f.skip; nerdctl_args = (s.nerdctl_args ++ f.key ∷ []) ++ f.value ∷ [] }

  add_env : Scan → EnvArg → Scan
  add_env s e =
      if e.env == ""
      then record s { skip = e.skip }
      else record s { skip = e.skip; envs = s.envs ++ e.env ∷ [] }

  -- A flag that may take the next argument for its value.
  flag_round : Scan → String → Option String → Result Round
  unfolding add_flag
  flag_round s arg none = ok (record { scan = emit s arg; arg = arg; next = none })
  flag_round s arg (some next) =
      ok (record { scan = add_flag s (handle_flag_arg arg next); arg = arg; next = some next })

  env_round : Scan → String → Option String → Result Round
  unfolding add_env
  env_round s arg none = ok (record { scan = emit s arg; arg = arg; next = none })
  env_round s arg (some next) =
      ok (record {
        scan = add_env s (handle_env d.lookup_env arg next);
        arg = arg;
        next = some next;
      })

  env_file_round : Scan → String → Option String → Result Round
  env_file_round s arg none = ok (record { scan = emit s arg; arg = arg; next = none })
  env_file_round s arg (some next) = do
    (skip, envs) ← handle_env_file d.lookup_env d.open_file arg next
    let s' = record s { skip = skip; file_envs = s.file_envs ++ envs }
    ok (record { scan = s'; arg = arg; next = some next })

  add_host_round : Scan → String → Option String → Result Round
  add_host_round s arg none = ok (record { scan = emit s arg; arg = arg; next = none })
  add_host_round s arg (some next) = do
    next' ← resolve_ip d next
    ok (record { scan = emit s arg; arg = arg; next = some next' })

  -- The switch on an argument that is neither skipped nor behind the last option.
  unfoldable pub switch_round : ArgKind → ℕ → Scan → String → Option String → Result Round
  unfolding flag_round env_round env_file_round add_host_round
  switch_round ArgKind.debug i s arg next =
      ok (record { scan = record s { debug = true }; arg = arg; next = next })
  switch_round ArgKind.help i s arg next = ok (record { scan = emit s arg; arg = arg; next = next })
  switch_round ArgKind.add_host i s arg next = add_host_round s arg next
  switch_round ArgKind.add_host_value i s arg next = do
    host ← resolve_ip d (slice_from 11 arg)
    ok (record { scan = emit s (slice_to 11 arg <> host); arg = arg; next = next })
  switch_round ArgKind.env_file i s arg next = env_file_round s arg next
  switch_round ArgKind.env i s arg next = env_round s arg next
  switch_round ArgKind.bool_flag i s arg next =
      ok (record { scan = emit s arg; arg = arg; next = next })
  switch_round ArgKind.bool_flag_value i s arg next =
      ok (record { scan = emit s arg; arg = arg; next = next })
  switch_round ArgKind.short_group i s arg next = do
    (arg', next') ← handle_multiple_short_flags sets arg next
    ok (record { scan = emit s arg'; arg = arg'; next = some next' })
  switch_round ArgKind.short_arg i s arg next = flag_round s arg next
  switch_round ArgKind.long_arg i s arg next = flag_round s arg next
  switch_round ArgKind.positional i s arg next =
      if before i pos
      then ok (record { scan = emit s arg; arg = arg; next = next })
      else ok (record {
        scan = record s { last_opt = true; cmd_args = s.cmd_args ++ arg ∷ [] };
        arg = arg;
        next = next;
      })

  -- The skipped argument, the arguments behind the last option, and the switch.
  unfoldable pub round : ℕ → Scan → String → Option String → Result Round
  unfolding switch_round
  round i s arg next =
      if s.skip
      then ok (record { scan = record s { skip = false }; arg = arg; next = next })
      else if s.last_opt
      then ok
          (record { scan = record s { cmd_args = s.cmd_args ++ arg ∷ [] }; arg = arg; next = next })
      else switch_round (classify sets arg) i s arg next

-- The handler that an argument has, if any.
unfoldable pub apply_handler :
    List (String × ArgHandler) → Bool → String → Option String → Result (String × Option String)
apply_handler handlers docker_compat arg next = elim (lookup (cut_before arg b'=') handlers) [
  | none ↦ ok (arg, next)
  | some h ↦ h docker_compat arg next
]

module _ (d : Deps) (handlers : List (String × ArgHandler)) (sets : FlagSets) (pos : OptPos) where
  -- `pending` is what earlier rounds have written to `args[i]`.
  unfoldable pub loop : ℕ → Option String → List String → Scan → Result Scan
  unfolding round apply_handler
  loop i pending [] s = ok s
  loop i pending (x ∷ rest) s = do
    (arg, next) ← apply_handler handlers d.docker_compat (get_or pending x) (head? rest)
    r ← round d sets pos i s arg next
    loop (suc i) r.next rest (record (r.scan) { seen = s.seen ++ r.arg ∷ [] })

  -- All arguments.
  unfoldable pub scan_args : List String → Result Scan
  unfolding loop
  scan_args args = loop 0 none args start

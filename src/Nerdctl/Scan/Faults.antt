-- ===== src/Nerdctl/Scan/Faults.antt =====
-- Command lines at which the loop faults, takes an argument apart, or mistakes a value for a name.
use finch.Prelude.{
  ℕ, String, true, false, ◌≡◌, none, some, List, [], ◌∷◌, ◌++◌, ltb, ok, panicked, ◌==◌, suc,
}
use finch.Text.{len, has_prefix, has_char, slice_from}
use finch.Nerdctl.Deps.{Deps}
use finch.Nerdctl.Flags.{FlagSets, ArgKind, classify}
use finch.Nerdctl.Values.{is_value}
use finch.Nerdctl.Values.Recombine.{handle_flag_arg-splits_long}
use finch.Nerdctl.Handlers.{ArgHandler}
use finch.Nerdctl.Scan.{
  Scan, OptPos, round, switch_round, loop, handle_multiple_short_flags, resolve_ip, before,
}
use finch.Nerdctl.Scan.PassThrough.{Unhandled, apply_handler-none, loop-positional}

module _ (d : Deps) (handlers : List (String × ArgHandler)) (sets : FlagSets) (pos : OptPos) where
  -- A group of short flags that stands last makes the loop fault: it reads the argument behind it.
  loop-short_group :
      (i : ℕ) (arg : String) (s : Scan)
      → Unhandled handlers (arg ∷ [])
      → s.skip ≡ false
      → s.last_opt ≡ false
      → classify sets arg ≡ ArgKind.short_group
      → loop d handlers sets pos i none (arg ∷ []) s ≡ panicked
  unfolding loop round switch_round handle_multiple_short_flags
  loop-short_group i arg s u k l c =
      rw (apply_handler-none handlers d.docker_compat arg none u.0, k, l, c)

  -- `--add-host` before a value with no colon makes the loop fault.
  loop-add_host :
      (i : ℕ) (arg host : String) (rest : List String) (s : Scan)
      → Unhandled handlers (arg ∷ [])
      → s.skip ≡ false
      → s.last_opt ≡ false
      → classify sets arg ≡ ArgKind.add_host
      → has_char host b':' ≡ false
      → loop d handlers sets pos i none (arg ∷ (host ∷ rest)) s ≡ panicked
  unfolding loop round switch_round resolve_ip
  loop-add_host i arg host rest s u k l c h =
      rw (apply_handler-none handlers d.docker_compat arg (some host) u.0, k, l, c, h)

  round-add_host :
      (i : ℕ) (arg host resolved : String) (s : Scan)
      → s.skip ≡ false
      → s.last_opt ≡ false
      → classify sets arg ≡ ArgKind.add_host
      → resolve_ip d host ≡ ok resolved
      → round d sets pos i s arg (some host)
        ≡ ok (record {
          scan = record s { nerdctl_args = s.nerdctl_args ++ arg ∷ [] };
          arg = arg;
          next = some resolved;
        })
  unfolding round switch_round
  round-add_host i arg host resolved s k l c r = rw (k, l, c, r)

  -- The value of `--add-host` counts as the name of the image or container: it and all that follows
  -- it, flags for environment variables included, go to the command as they stand.
  loop-add_host_value :
      (i : ℕ) (arg host resolved : String) (rest : List String) (s : Scan)
      → Unhandled handlers (arg ∷ [])
      → Unhandled handlers (resolved ∷ rest)
      → s.skip ≡ false
      → s.last_opt ≡ false
      → classify sets arg ≡ ArgKind.add_host
      → resolve_ip d host ≡ ok resolved
      → classify sets resolved ≡ ArgKind.positional
      → before (suc i) pos ≡ false
      → loop d handlers sets pos i none (arg ∷ (host ∷ rest)) s
        ≡ ok (record s {
          nerdctl_args = s.nerdctl_args ++ arg ∷ [];
          last_opt = true;
          cmd_args = s.cmd_args ++ resolved ∷ rest;
          seen = (s.seen ++ arg ∷ []) ++ resolved ∷ rest;
        })
  unfolding loop
  loop-add_host_value i arg host resolved rest s u u' k l c r c' b =
      rw
        (
          apply_handler-none handlers d.docker_compat arg (some host) u.0,
          round-add_host i arg host resolved s k l c r,
        )
        (loop-positional d handlers sets pos (suc i) resolved rest
          (record s { nerdctl_args = s.nerdctl_args ++ arg ∷ []; seen = s.seen ++ arg ∷ [] }) u' k l
          c' b)

  -- A long flag that is in no set and has no `=`, before an argument that is no value, puts two
  -- dashes and the rest of its name among the arguments for nerdctl, in place of itself.
  round-splits_long :
      (i : ℕ) (arg next : String) (s : Scan)
      → s.skip ≡ false
      → s.last_opt ≡ false
      → classify sets arg ≡ ArgKind.long_arg
      → has_prefix arg "--" ≡ true
      → has_char arg b'=' ≡ false
      → is_value next ≡ false
      → ltb 2 (len arg) ≡ true
      → round d sets pos i s arg (some next)
        ≡ ok (record {
          scan = record s { nerdctl_args = (s.nerdctl_args ++ "--" ∷ []) ++ slice_from 2 arg ∷ [] };
          arg = arg;
          next = some next;
        })
  unfolding round switch_round ◌==◌
  round-splits_long i arg next s k l c p e v n =
      rw (k, l, c, handle_flag_arg-splits_long arg next p e v n)

-- ===== src/Nerdctl/Scan/PassThrough.antt =====
-- What the loop leaves as it is.
use finch.Prelude.{
  ℕ, suc, String, Bool, true, false, ◌≡◌, refl, Option, none, some, List, [], ◌∷◌, ◌++◌, lookup,
  head?, get_or, ok, arith, append_assoc, append-nil, ◌∙◌,
}
use finch.Text.{cut_before}
use finch.Nerdctl.Deps.{Deps}
use finch.Nerdctl.Flags.{FlagSets, ArgKind, classify}
use finch.Nerdctl.Handlers.{ArgHandler}
use finch.Nerdctl.Scan.{before, switch_round, Scan, OptPos, round, apply_handler, loop}

-- No argument has a handler.
abbrev pub Unhandled : List (String × ArgHandler) → List String → Type 0
Unhandled handlers [] = Unit
Unhandled handlers (a ∷ rest) =
    (lookup (cut_before a b'=') handlers ≡ none) × Unhandled handlers rest

pub Unhandled-nil : (args : List String) → Unhandled [] args
unfolding lookup
Unhandled-nil [] = tt
Unhandled-nil (a ∷ args) = (refl, Unhandled-nil args)

pub apply_handler-none :
    (handlers : List (String × ArgHandler)) (docker_compat : Bool) (arg : String)
    (next : Option String)
    → lookup (cut_before arg b'=') handlers ≡ none
    → apply_handler handlers docker_compat arg next ≡ ok (arg, next)
unfolding apply_handler
apply_handler-none handlers docker_compat arg next h = rw (h, apply_handler)

-- `pending` holds what the rest begins with, or nothing.
abbrev pub Agrees : Option String → List String → Type 0
Agrees none rest = Unit
Agrees (some a) [] = Unit
Agrees (some a) (x ∷ rest) = a ≡ x

pub get_or-Agrees :
    (pending : Option String) (x : String) (rest : List String)
    → Agrees pending (x ∷ rest)
    → get_or pending x ≡ x
get_or-Agrees none x rest a = refl
get_or-Agrees (some y) x rest a = a

pub Agrees-head? : (rest : List String) → Agrees (head? rest) rest
Agrees-head? [] = tt
Agrees-head? (x ∷ rest) = refl

module _ (d : Deps) (handlers : List (String × ArgHandler)) (sets : FlagSets) (pos : OptPos) where
  round-last_opt :
      (i : ℕ) (s : Scan) (arg : String) (next : Option String)
      → s.skip ≡ false
      → s.last_opt ≡ true
      → round d sets pos i s arg next
        ≡ ok (record {
          scan = record s { cmd_args = s.cmd_args ++ arg ∷ [] };
          arg = arg;
          next = next;
        })
  unfolding round
  round-last_opt i s arg next k l = ground arith

  loop-last_opt :
      (i : ℕ) (pending : Option String) (args : List String) (s : Scan)
      → Agrees pending args
      → Unhandled handlers args
      → s.skip ≡ false
      → s.last_opt ≡ true
      → loop d handlers sets pos i pending args s
        ≡ ok (record s { cmd_args = s.cmd_args ++ args; seen = s.seen ++ args })
  unfolding loop
  loop-last_opt i pending [] s a u k l = simp append-nil
  loop-last_opt i pending (x ∷ rest) s a u k l =
      rw
        (
          get_or-Agrees pending x rest a,
          apply_handler-none handlers d.docker_compat x (head? rest) u.0,
          round-last_opt i s x (head? rest) k l,
        )
        (loop-last_opt (suc i) (head? rest) rest
            (record s { cmd_args = s.cmd_args ++ x ∷ []; seen = s.seen ++ x ∷ [] })
            (Agrees-head? rest) u.1 k l
          ∙ simp append_assoc)

  round-positional :
      (i : ℕ) (s : Scan) (arg : String) (next : Option String)
      → s.skip ≡ false
      → s.last_opt ≡ false
      → classify sets arg ≡ ArgKind.positional
      → before i pos ≡ false
      → round d sets pos i s arg next
        ≡ ok (record {
          scan = record s { last_opt = true; cmd_args = s.cmd_args ++ arg ∷ [] };
          arg = arg;
          next = next;
        })
  unfolding round switch_round
  round-positional i s arg next k l c b = ground arith

  -- The first argument that is no flag, and all that follow it, go to the command as they stand and
  -- in their order, where none of them has a handler; nothing else changes.
  pub loop-positional :
      (i : ℕ) (arg : String) (rest : List String) (s : Scan)
      → Unhandled handlers (arg ∷ rest)
      → s.skip ≡ false
      → s.last_opt ≡ false
      → classify sets arg ≡ ArgKind.positional
      → before i pos ≡ false
      → loop d handlers sets pos i none (arg ∷ rest) s
        ≡ ok (record s {
          last_opt = true;
          cmd_args = s.cmd_args ++ arg ∷ rest;
          seen = s.seen ++ arg ∷ rest;
        })
  unfolding loop
  loop-positional i arg rest s u k l c b =
      rw
        (
          apply_handler-none handlers d.docker_compat arg (head? rest) u.0,
          round-positional i s arg (head? rest) k l c b,
        )
        (loop-last_opt (suc i) (head? rest) rest
            (record s {
              last_opt = true;
              cmd_args = s.cmd_args ++ arg ∷ [];
              seen = s.seen ++ arg ∷ [];
            })
            (Agrees-head? rest) u.1 k refl
          ∙ simp append_assoc)

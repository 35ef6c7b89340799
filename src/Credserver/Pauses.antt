-- ===== src/Credserver/Pauses.antt =====
-- How long stopping the credential daemon takes.
use finch.Prelude.{ℕ, suc, ◌+◌, ◌≤◌, String, List, [], ◌∷◌, ◌++◌, ◌≡◌, inl, inr, ◌⊎◌, arith, ok}
use finch.Prelude.Int.{ℤ}
use finch.Credserver.Process.{
  Event, signalled, slept, ProcHost, Run, get_process_from_pid_file, stop_credential_server,
  pid_file_of,
}
use finch.Credserver.Stopping.{Waiting, Stopping, stop_credential_server-Stopping}

-- How often the program pauses.
unfoldable pub pauses : List Event → ℕ
pauses [] = 0
pauses (slept ∷ es) = suc (pauses es)
pauses (signalled p s ∷ es) = pauses es

pauses-append : (xs ys : List Event) → pauses (xs ++ ys) ≡ pauses xs + pauses ys
unfolding pauses
pauses-append [] ys = omega arith
pauses-append (slept ∷ xs) ys = ground (arith, pauses-append xs ys)
pauses-append (signalled p s ∷ xs) ys = pauses-append xs ys

pauses-Waiting : {p : ℤ} {n : ℕ} {es : List Event} → Waiting p n es → pauses es ≤ n
unfolding pauses
pauses-Waiting Waiting.killed = omega arith
pauses-Waiting (Waiting.ended n) = omega arith
pauses-Waiting (Waiting.again n es k) = let ih = pauses-Waiting k in omega arith

pauses-Stopping : {p : ℤ} {es : List Event} → Stopping p es → pauses es ≤ 20
unfolding pauses
pauses-Stopping Stopping.gone = omega arith
pauses-Stopping Stopping.refused = omega arith
pauses-Stopping (Stopping.told es k) = pauses-Waiting k

pauses_within :
    (h : ProcHost) (root : String) (r : Run h) (n : ℕ) (es : List Event)
    → ((es ≡ []) × ¬ ((p : ℤ) × (get_process_from_pid_file h (pid_file_of root) r.world ≡ ok p)))
      ⊎ ((p : ℤ) × (get_process_from_pid_file h (pid_file_of root) r.world ≡ ok p) × Stopping p es)
    → n + pauses es ≤ n + 20
unfolding pauses
pauses_within h root r n es (inl (e, none)) = rw e (omega arith)
pauses_within h root r n es (inr (p, e, k)) = let b = pauses-Stopping k in omega arith

module _ (h : ProcHost) where
  -- `StopCredentialServer` pauses twenty times at most, two seconds in all.
  pub pauses-stop_credential_server :
      (root : String) (r : Run h)
      → pauses (stop_credential_server h root r).1.events ≤ pauses r.events + 20
  pauses-stop_credential_server root r =
      let (es, k, q) = stop_credential_server-Stopping h root r in
      rw (q, pauses-append) (pauses_within h root r (pauses r.events) es k)

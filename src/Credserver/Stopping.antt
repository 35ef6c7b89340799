-- ===== src/Credserver/Stopping.antt =====
-- Stopping the credential daemon: what is done to the process, for how long, and what holds after.
use finch.Prelude.{
  ℕ, zero, suc, String, List, [], ◌∷◌, ◌++◌, append-nil, append_assoc, ◌≡◌, refl, sym, ap, ◌∙◌,
  context, Result, ok, err, panicked, inl, inr, ◌⊎◌,
}
use finch.Prelude.Int.{ℤ}
use finch.Prelude.Act.{continue}
use finch.Credserver.Process.{
  null_signal, sigterm, sigkill, Event, signalled, slept, ProcHost, Run, send, sleep,
  get_process_from_pid_file, if_alive, await_exit, terminate, stop_process, stop_daemon,
  stop_credential_server, pid_file_of,
}

-- What the loop does to process `p` with `n` rounds left: it looks, and either stops there or
-- pauses and looks again; SIGKILL comes when no round is left.
pub data Waiting (p : ℤ) : ℕ → List Event → Type 0 where
  killed : Waiting p zero (signalled p sigkill ∷ [])
  ended : (n : ℕ) → Waiting p (suc n) (signalled p null_signal ∷ [])
  again :
      (n : ℕ) (es : List Event)
      → Waiting p n es
      → Waiting p (suc n) (signalled p null_signal ∷ (slept ∷ es))

-- What `stopDaemon` does to process `p`.
pub data Stopping (p : ℤ) : List Event → Type 0 where
  gone : Stopping p (signalled p null_signal ∷ [])
  refused : Stopping p (signalled p null_signal ∷ (signalled p sigterm ∷ []))
  told :
      (es : List Event)
      → Waiting p 20 es
      → Stopping p (signalled p null_signal ∷ (signalled p sigterm ∷ es))

module _ (h : ProcHost) where
  -- The events that an action adds satisfy a predicate.
  abbrev pub Adds : (List Event → Type 0) → Run h → Run h → Type 0
  Adds P r r' = (es : List Event) × P es × (r'.events ≡ r.events ++ es)

  cons-Adds :
      {Q : List Event → Type 0} (e : Event) (r v r' : Run h)
      → v.events ≡ r.events ++ (e ∷ [])
      → Adds (λ es. Q (e ∷ es)) v r'
      → Adds Q r r'
  cons-Adds e r v r' k (es, p, q) =
      (e ∷ es, p, q ∙ ap (λ l. l ++ es) k ∙ append_assoc r.events (e ∷ []) es)

  await_exit-Waiting : (n : ℕ) (p : ℤ) (r : Run h) → Adds (Waiting p n) r (await_exit h n p r).1
  unfolding await_exit
  await_exit-Waiting zero p r = (signalled p sigkill ∷ [], killed, refl)
  await_exit-Waiting (suc n) p r =
      go (h.signal p null_signal r.world).0 (await_exit-Waiting n p (sleep h v))
    where
      v : Run h
      v = (send h p null_signal r).1

      go :
          (a : Result (Unit {0}))
          → Adds (Waiting p n) (sleep h v) (await_exit h n p (sleep h v)).1
          → Adds (Waiting p (suc n)) r (if_alive h a (λ v. await_exit h n p (sleep h v)) v).1
      go (ok u) (es, k, q) =
          cons-Adds (signalled p null_signal) r v (await_exit h n p (sleep h v)).1 refl (
            cons-Adds slept v (sleep h v) (await_exit h n p (sleep h v)).1 refl
              (es, again n es k, q))
      go (err e) ih = (signalled p null_signal ∷ [], ended n, refl)
      go panicked ih = (signalled p null_signal ∷ [], ended n, refl)

  stop_process-Stopping : (p : ℤ) (r : Run h) → Adds (Stopping p) r (stop_process h (ok p) r).1
  unfolding stop_process terminate
  stop_process-Stopping p r = go (h.signal p null_signal r.world).0
    where
      v : Run h
      v = (send h p null_signal r).1

      t : Run h
      t = (send h p sigterm v).1

      sent :
          (a : Result (Unit {0}))
          → Adds
              (λ es. Stopping p (signalled p null_signal ∷ es))
              v
              (continue (context "failed to terminate process" a) (λ u. await_exit h 20 p) t).1
      sent (ok u) =
          let (es, k, q) = await_exit-Waiting 20 p t in
          cons-Adds (signalled p sigterm) v t (await_exit h 20 p t).1 refl (es, told es k, q)
      sent (err e) = (signalled p sigterm ∷ [], refused, refl)
      sent panicked = (signalled p sigterm ∷ [], refused, refl)

      go : (a : Result (Unit {0})) → Adds (Stopping p) r (if_alive h a (terminate h p) v).1
      go (ok u) =
          cons-Adds (signalled p null_signal) r v (terminate h p v).1 refl
            (sent (h.signal p sigterm v.world).0)
      go (err e) = (signalled p null_signal ∷ [], gone, refl)
      go panicked = (signalled p null_signal ∷ [], gone, refl)

  -- What `StopCredentialServer` does to processes: nothing where the PID file has no number, and
  -- else, to the one process that it names, what `Stopping` allows.
  pub stop_credential_server-Stopping :
      (root : String) (r : Run h)
      → Adds
          (λ es.
            ((es ≡ [])
              × ¬ ((p : ℤ) × (get_process_from_pid_file h (pid_file_of root) r.world ≡ ok p)))
            ⊎ ((p : ℤ) × (get_process_from_pid_file h (pid_file_of root) r.world ≡ ok p)
                × Stopping p es))
          r
          (stop_credential_server h root r).1
  unfolding stop_credential_server stop_daemon
  stop_credential_server-Stopping root r =
      go (get_process_from_pid_file h (pid_file_of root) r.world) refl
    where
      go :
          (a : Result ℤ)
          → get_process_from_pid_file h (pid_file_of root) r.world ≡ a
          → Adds
              (λ es.
                ((es ≡ [])
                  × ¬ ((p : ℤ) × (get_process_from_pid_file h (pid_file_of root) r.world ≡ ok p)))
                ⊎ ((p : ℤ) × (get_process_from_pid_file h (pid_file_of root) r.world ≡ ok p)
                    × Stopping p es))
              r
              (stop_process h a r).1
      go (ok p) e = let (es, k, q) = stop_process-Stopping p r in (es, inr (p, e, k), q)
      go (err x) e = ([], inl (refl, λ (p, q). let c = sym e ∙ q in cc), sym (append-nil r.events))
      go panicked e = ([], inl (refl, λ (p, q). let c = sym e ∙ q in cc), sym (append-nil r.events))

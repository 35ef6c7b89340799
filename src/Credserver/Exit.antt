-- ===== src/Credserver/Exit.antt =====
-- After the credential daemon was stopped: what has become of the process, and of its PID file.
use finch.Prelude.{
  ℕ, zero, suc, String, ◌≡◌, refl, sym, false, Error, context, Result, ok, err, panicked, List, [],
  ◌∷◌, ◌++◌, ◌⊎◌, inl, inr,
}
use mathlib.Core.Path.{subst}
use finch.Prelude.Int.{ℤ}
use finch.Prelude.Act.{continue}
use finch.Credserver.Process.{
  null_signal, sigterm, Event, signalled, sigkill, ProcHost, Run, send, sleep, if_alive,
  get_process_from_pid_file, await_exit, terminate, stop_process, stop_daemon,
  stop_credential_server, pid_file_of, is_daemon_running, is_server_running,
}

module _ (h : ProcHost) where
  -- What the system documents of the signals to process `p`, which belongs to the user: a signal 0
  -- fails only where there is no such process, and it does not come back with the removal of a file.
  pub record IsKernel (Alive : ℤ → h.World → Type 0) (p : ℤ) : Type 0 where
    pub null-dead :
        (w : h.World) (e : Error)
        → (h.signal p null_signal w).0 ≡ err e
        → ¬ Alive p (h.signal p null_signal w).1
    pub remove-dead : (f : String) (w : h.World) → Alive p (h.remove_file f w).1 → Alive p w

  -- The process is gone, or the last thing that was done to a process is a SIGKILL to it.
  abbrev pub Ends : (ℤ → h.World → Type 0) → ℤ → Run h → Type 0
  Ends Alive p r =
      (¬ Alive p r.world) ⊎ ((es : List Event) × (r.events ≡ es ++ (signalled p sigkill ∷ [])))

  module _ (Alive : ℤ → h.World → Type 0) (p : ℤ) (k : IsKernel Alive p) where
    if_alive-dead :
        (r : Run h) (f : Run h → Result (Unit {0}) × Run h)
        → ((f (send h p null_signal r).1).0 ≡ ok tt → Ends Alive p (f (send h p null_signal r).1).1)
        → (if_alive h (send h p null_signal r).0 f (send h p null_signal r).1).0 ≡ ok tt
        → Ends Alive p (if_alive h (send h p null_signal r).0 f (send h p null_signal r).1).1
    if_alive-dead r f ih = go (h.signal p null_signal r.world).0 refl
      where
        v : Run h
        v = (send h p null_signal r).1

        go :
            (a : Result (Unit {0}))
            → (h.signal p null_signal r.world).0 ≡ a
            → (if_alive h a f v).0 ≡ ok tt
            → Ends Alive p (if_alive h a f v).1
        go (ok u) e s = ih s
        go (err x) e s = inl (k.null-dead r.world x e)
        go panicked e s = cc

    await_exit-dead :
        (n : ℕ) (r : Run h) → (await_exit h n p r).0 ≡ ok tt → Ends Alive p (await_exit h n p r).1
    unfolding await_exit
    await_exit-dead zero r s = inr (r.events, refl)
    await_exit-dead (suc n) r s =
        if_alive-dead r (λ v. await_exit h n p (sleep h v))
          (await_exit-dead n (sleep h (send h p null_signal r).1)) s

    terminate-dead : (r : Run h) → (terminate h p r).0 ≡ ok tt → Ends Alive p (terminate h p r).1
    unfolding terminate
    terminate-dead r = go (h.signal p sigterm r.world).0
      where
        t : Run h
        t = (send h p sigterm r).1

        go :
            (a : Result (Unit {0}))
            → (continue (context "failed to terminate process" a) (λ u. await_exit h 20 p) t).0
              ≡ ok tt
            → Ends Alive p
                (continue (context "failed to terminate process" a) (λ u. await_exit h 20 p) t).1
        go (ok u) s = await_exit-dead 20 t s
        go (err e) s = cc
        go panicked s = cc

    -- Where `StopCredentialServer` reports no error, the process that the PID file named is gone, or
    -- the last thing that was done to a process is a SIGKILL to it.
    pub stop_credential_server-dead :
        (root : String) (r : Run h)
        → get_process_from_pid_file h (pid_file_of root) r.world ≡ ok p
        → (stop_credential_server h root r).0 ≡ ok tt
        → Ends Alive p (stop_credential_server h root r).1
    unfolding stop_credential_server stop_daemon stop_process
    stop_credential_server-dead root r e =
        subst (λ a. (stop_process h a r).0 ≡ ok tt → Ends Alive p (left (stop_process h a r).1))
          (sym e) stopped
      where
        left : Run h → Run h
        left r = record r { world = (h.remove_file (pid_file_of root) r.world).1 }

        kept : (v : Run h) → Ends Alive p v → Ends Alive p (left v)
        kept v (inl dead) = inl (λ a. dead (k.remove-dead (pid_file_of root) v.world a))
        kept v (inr killed) = inr killed

        stopped :
            (stop_process h (ok p) r).0 ≡ ok tt → Ends Alive p (left (stop_process h (ok p) r).1)
        stopped s =
            kept (stop_process h (ok p) r).1
              (if_alive-dead r (terminate h p) (terminate-dead (send h p null_signal r).1) s)

  is_daemon_running-err :
      (f : String) (v : Run h) (e : Error)
      → h.read_file f v.world ≡ err e
      → (is_daemon_running h f v).0 ≡ ok false
  unfolding is_daemon_running get_process_from_pid_file
  is_daemon_running-err f v e q = rw q refl

  -- Whatever `StopCredentialServer` reports, no daemon counts as running afterwards, where a file
  -- that was removed cannot be read.
  pub is_server_running-stop_credential_server :
      (root : String) (r : Run h)
      → ((w : h.World)
          → (e : Error) × (h.read_file (pid_file_of root) (h.remove_file (pid_file_of root) w).1
              ≡ err e))
      → (is_server_running h root (stop_credential_server h root r).1).0 ≡ ok false
  unfolding is_server_running is_daemon_running stop_credential_server stop_daemon
  is_server_running-stop_credential_server root r l =
      let (e, q) =
        l (stop_process h (get_process_from_pid_file h (pid_file_of root) r.world) r).1.world in
      is_daemon_running-err (pid_file_of root) (stop_credential_server h root r).1 e q

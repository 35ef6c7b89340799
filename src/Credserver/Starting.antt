-- ===== src/Credserver/Starting.antt =====
-- After the credential daemon was started, it counts as running.
use mathlib.Core.Path.{subst}
use finch.Prelude.{ℕ, ◌<◌, ◌^◌, String, List, [], ◌∷◌, ◌≡◌, refl, ap, true, Result, ok}
use finch.Prelude.Int.{ℤ, pos}
use finch.Prelude.Act.{bind-inv, described, described-inv, ◌>>◌}
use finch.Text.Decimal.{itoa}
use finch.Text.Decimal.RoundTrip.{parse_int-itoa}
use finch.Credserver.Process.{
  null_signal, ProcHost, Run, on_world, launch, start_credential_server, pid_file_of, log_path_of,
  is_server_running, is_daemon_running, get_process_from_pid_file, clean_stale, make_log_dir, spawn,
  record_pid, daemon_path_of, socket_path_of,
}

module _ (h : ProcHost) where
  -- What the system documents: a process that was started runs, under a number that an int holds;
  -- what was written is read; and a signal 0 to a process that runs succeeds.
  pub record IsMachine (Alive : ℤ → h.World → Type 0) : Type 0 where
    pub start-alive :
        (path : String) (args : List String) (w w' : h.World) (pid : ℕ)
        → h.start_process path args w ≡ (ok pid, w')
        → Alive (pos pid) w' × (pid < 2 ^ 63)
    pub write-alive :
        (f s : String) (p : ℤ) (w : h.World) → Alive p w → Alive p (h.write_file f s w).1
    pub write-reads :
        (f s : String) (w w' : h.World) → h.write_file f s w ≡ (ok tt, w') → h.read_file f w' ≡ ok s
    pub alive-null : (p : ℤ) (w : h.World) → Alive p w → (h.signal p null_signal w).0 ≡ ok tt

  on_world-inv :
      {A : Type 0} (c : String) (m : h.World → Result A × h.World) (r r' : Run h) (a : A)
      → described c (on_world h m) r ≡ (ok a, r')
      → m r.world ≡ (ok a, r'.world)
  on_world-inv c m r r' a e = ap (λ x. (x.0, x.1.world)) (described-inv c (on_world h m) r r' a e)

  is_daemon_running-answers :
      (f : String) (r : Run h) (p : ℤ)
      → get_process_from_pid_file h f r.world ≡ ok p
      → (h.signal p null_signal r.world).0 ≡ ok tt
      → (is_daemon_running h f r).0 ≡ ok true
  unfolding is_daemon_running get_process_from_pid_file
  is_daemon_running-answers f r p e s = rw (e, s) refl

  module _ (Alive : ℤ → h.World → Type 0) (k : IsMachine Alive) where
    pid_file-started :
        (f : String) (pid : ℕ) (r r' : Run h)
        → Alive (pos pid) r.world × (pid < 2 ^ 63)
        → h.write_file f (itoa pid) r.world ≡ (ok tt, r'.world)
        → (is_daemon_running h f r').0 ≡ ok true
    unfolding get_process_from_pid_file
    pid_file-started f pid r r' (alive, bound) e =
        is_daemon_running-answers f r' (pos pid)
          (rw (k.write-reads f (itoa pid) r.world r'.world e) (parse_int-itoa pid bound))
          (k.alive-null (pos pid) r'.world (
            subst (Alive (pos pid)) (ap (λ x. x.1) e)
              (k.write-alive f (itoa pid) (pos pid) r.world alive)))

    spawn-Alive :
        (root : String) (r r' : Run h) (pid : ℕ)
        → spawn h root r ≡ (ok pid, r')
        → Alive (pos pid) r'.world × (pid < 2 ^ 63)
    spawn-Alive root r r' pid e =
        let args = socket_path_of root ∷ pid_file_of root ∷ log_path_of root ∷ [] in
        k.start-alive (daemon_path_of root) args r.world r'.world pid (
          on_world-inv "failed to start credential daemon"
            (h.start_process (daemon_path_of root) args) r r' pid e)

    -- Where `StartCredentialServer` reports no error, the daemon counts as running afterwards.
    pub is_server_running-start_credential_server :
        (root : String) (r r' : Run h)
        → start_credential_server h root r ≡ (ok tt, r')
        → (is_server_running h root r').0 ≡ ok true
    unfolding start_credential_server is_server_running launch
    is_server_running-start_credential_server root r r' e =
        let (u, r1, _, l1) =
          bind-inv (clean_stale h (pid_file_of root) (h.read_file (pid_file_of root) r.world))
            (λ u. launch h root) r r' tt e in
        let (pid, r2, s, l2) =
          bind-inv (make_log_dir h root >> spawn h root) (record_pid h root) r1 r' tt l1 in
        let (v, r3, _, l3) = bind-inv (make_log_dir h root) (λ u. spawn h root) r1 r2 pid s in
        pid_file-started (pid_file_of root) pid r2 r' (spawn-Alive root r3 r2 pid l3) (
          on_world-inv "failed to write PID file" (h.write_file (pid_file_of root) (itoa pid)) r2 r'
            tt l2)

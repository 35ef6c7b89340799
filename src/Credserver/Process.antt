-- ===== src/Credserver/Process.antt =====
-- pkg/credserver/process_darwin.go: starting the credential daemon, asking whether it runs, and
-- stopping it, by the process id that a file keeps.
use finch.Prelude.{
  ℕ, zero, suc, String, Bool, true, false, List, [], ◌∷◌, ◌++◌, Result, ok, err, panicked,
}
use finch.Prelude.Int.{ℤ}
use finch.Prelude.Act.{Act, pure, raise, described, ignored, ◌>>=◌, ◌>>◌}
use finch.Text.{trim_space}
use finch.Text.Decimal.{parse_int, itoa}
use finch.Text.FilePath.{join_path, dir}

pub data Signal : Type 0 where
  null_signal sigterm sigkill : Signal

-- What is done to a process, and the pauses of 100 ms between.
pub data Event : Type 0 where
  signalled : ℤ → Signal → Event
  slept : Event

-- `os`, `os/exec` and `syscall`. On Unix `os.FindProcess` gives a handle for any number, so that a
-- signal names its process by the number.
pub record ProcHost : Type 1 where
  pub World : Type 0
  pub read_file : String → World → Result String
  pub write_file : String → String → Act World (Unit {0})
  pub remove_file : String → Act World (Unit {0})
  pub mkdir_all : String → Act World (Unit {0})
  -- `exec.Command(path, args...).Start()`, with the new process's number
  pub start_process : String → List String → Act World ℕ
  pub signal : ℤ → Signal → Act World (Unit {0})

abbrev pub pid_file_of : String → String
pid_file_of root = join_path (root ∷ "lima/data/finch/cred-daemon.pid" ∷ [])

abbrev pub socket_path_of : String → String
socket_path_of root = join_path (root ∷ "lima/data/finch/sock/creds.sock" ∷ [])

abbrev pub daemon_path_of : String → String
daemon_path_of root = join_path (root ∷ "finch-cred/credserver" ∷ [])

abbrev pub log_path_of : String → String
log_path_of root = join_path (root ∷ "logs/credserver.log" ∷ [])

module _ (h : ProcHost) where
  -- The machine, and what was done to processes so far, the first event first.
  pub record Run : Type 0 where
    pub world : h.World
    pub events : List Event

  abbrev pub on_world : {A : Type 0} → Act h.World A → Act Run A
  on_world m r = let (a, w) = m r.world in (a, record r { world = w })

  -- `process.Signal(s)`
  abbrev pub send : ℤ → Signal → Act Run (Unit {0})
  send p s r =
      let (a, w) = h.signal p s r.world in
      (a, record { world = w; events = r.events ++ (signalled p s ∷ []) })

  -- `time.Sleep(100 * time.Millisecond)`
  abbrev pub sleep : Run → Run
  sleep r = record r { events = r.events ++ (slept ∷ []) }

  abbrev pub to_pid : Result String → Result ℤ
  to_pid (ok data_read) = parse_int (trim_space data_read)
  to_pid (err e) = err e
  to_pid panicked = panicked

  -- `getProcessFromPIDFile`, with the number for the handle
  unfoldable pub get_process_from_pid_file : String → h.World → Result ℤ
  get_process_from_pid_file pid_file w = to_pid (h.read_file pid_file w)

  abbrev pub answers : Result ℤ → Act Run Bool
  answers (ok p) r = let (a, r') = send p null_signal r in (said a, r')
    where
      said : Result (Unit {0}) → Result Bool
      said (ok u) = ok true
      said (err e) = ok false
      said panicked = panicked
  answers (err e) r = (ok false, r)
  answers panicked r = (panicked, r)

  -- `isDaemonRunning`
  unfoldable pub is_daemon_running : String → Act Run Bool
  unfolding get_process_from_pid_file
  is_daemon_running pid_file r = answers (get_process_from_pid_file pid_file r.world) r

  -- What follows a signal 0: the rest if the process answered, else a return without an error.
  abbrev pub if_alive : Result (Unit {0}) → Act Run (Unit {0}) → Act Run (Unit {0})
  if_alive (ok u) k r = k r
  if_alive (err e) k r = (ok tt, r)
  if_alive panicked k r = (panicked, r)

  -- The loop that waits, and the SIGKILL behind it.
  unfoldable pub await_exit : ℕ → ℤ → Act Run (Unit {0})
  await_exit zero p r = ignored (send p sigkill) r
  await_exit (suc n) p r =
      let (a, r') = send p null_signal r in if_alive a (λ v. await_exit n p (sleep v)) r'

  unfoldable pub terminate : ℤ → Act Run (Unit {0})
  unfolding await_exit
  terminate p = described "failed to terminate process" (send p sigterm) >> await_exit 20 p

  unfoldable pub stop_process : Result ℤ → Act Run (Unit {0})
  unfolding terminate
  stop_process (ok p) r = let (a, r') = send p null_signal r in if_alive a (terminate p) r'
  stop_process (err e) r = (ok tt, r)
  stop_process panicked r = (panicked, r)

  -- `stopDaemon`; the deferred removal of the PID file ends every branch.
  unfoldable pub stop_daemon : String → Act Run (Unit {0})
  unfolding stop_process get_process_from_pid_file
  stop_daemon pid_file r =
      let (a, r') = stop_process (get_process_from_pid_file pid_file r.world) r in
      (a, record r' { world = (h.remove_file pid_file r'.world).1 })

  -- `StopCredentialServer`
  unfoldable pub stop_credential_server : String → Act Run (Unit {0})
  unfolding stop_daemon
  stop_credential_server root = stop_daemon (pid_file_of root)

  abbrev pub remove_stale : String → Bool → Act Run (Unit {0})
  remove_stale pid_file true = pure tt
  remove_stale pid_file false = ignored (on_world (h.remove_file pid_file))

  abbrev pub clean_stale : String → Result String → Act Run (Unit {0})
  unfolding is_daemon_running
  clean_stale pid_file (ok data_read) = is_daemon_running pid_file >>= remove_stale pid_file
  clean_stale pid_file (err e) = pure tt
  clean_stale pid_file panicked = raise panicked

  abbrev pub make_log_dir : String → Act Run (Unit {0})
  make_log_dir root =
      described "failed to create log directory" (on_world (h.mkdir_all (dir (log_path_of root))))

  abbrev pub spawn : String → Act Run ℕ
  spawn root = described "failed to start credential daemon" (
      on_world (
        h.start_process (daemon_path_of root)
          (socket_path_of root ∷ pid_file_of root ∷ log_path_of root ∷ [])))

  abbrev pub record_pid : String → ℕ → Act Run (Unit {0})
  record_pid root pid =
      described "failed to write PID file" (on_world (h.write_file (pid_file_of root) (itoa pid)))

  unfoldable pub launch : String → Act Run (Unit {0})
  launch root = make_log_dir root >> spawn root >>= record_pid root

  -- `StartCredentialServer`
  unfoldable pub start_credential_server : String → Act Run (Unit {0})
  unfolding is_daemon_running launch
  start_credential_server root r =
      (clean_stale (pid_file_of root) (h.read_file (pid_file_of root) r.world) >> launch root) r

  -- `IsDaemonRunning`
  unfoldable pub is_server_running : String → Act Run Bool
  unfolding is_daemon_running
  is_server_running root = is_daemon_running (pid_file_of root)

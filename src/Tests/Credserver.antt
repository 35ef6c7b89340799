-- ===== src/Tests/Credserver.antt =====
-- The theorems on the credential daemon, with a process that does not listen to SIGTERM.
use finch.Prelude.{
  ◌+◌, ◌≤◌, ◌<◌, ◌^◌, String, [], ◌≡◌, refl, sym, ap, ◌∙◌, Option, none, some, true, false, ok_inj,
  arith, Error, Result, ok, err, message, not_exist, ◌⊎◌, length,
}
use mathlib.Core.Path.{subst}
use finch.Prelude.Int.{ℤ, pos, negsuc, int_eq}
use finch.Text.{trim_space}
use finch.Text.Decimal.{parse_int}
use finch.Credserver.Process.{
  Signal, null_signal, sigterm, sigkill, ProcHost, Run, get_process_from_pid_file, pid_file_of,
  stop_credential_server, is_server_running, start_credential_server,
}
use finch.Credserver.Stopping.{Stopping, Adds, stop_credential_server-Stopping}
use finch.Credserver.Pauses.{pauses, pauses-stop_credential_server}
use finch.Credserver.Exit.{IsKernel, Ends, stop_credential_server-dead}
use finch.Credserver.Starting.{IsMachine, is_server_running-start_credential_server}

-- The PID file's text, and the process that runs.
abbrev Machine : Type 0
Machine = Option String × Option ℤ

abbrev text_of : Option String → Result String
text_of none = err not_exist
text_of (some s) = ok s

abbrev probe : ℤ → Option ℤ → Result (Unit {0})
probe p none = err (message "os: process already finished")
probe p (some q) = elim (int_eq q p) [ true ↦ ok tt | false ↦ err (message "no such process") ]

abbrev deliver : ℤ → Signal → Machine → Result (Unit {0}) × Machine
deliver p null_signal (t, q) = (probe p q, (t, q))
deliver p sigterm w = (ok tt, w)
deliver p sigkill (t, q) = (ok tt, (t, none))

abbrev machine : ProcHost
machine = record {
  World = Machine;
  read_file = λ f w. text_of w.0;
  write_file = λ f s w. (ok tt, (some s, w.1));
  remove_file = λ f w. (ok tt, (none, w.1));
  mkdir_all = λ f w. (ok tt, w);
  start_process = λ f args w. (ok 4_211, (w.0, some (pos 4_211)));
  signal = deliver;
}

abbrev Alive : ℤ → Machine → Type 0
Alive p (t, q) = q ≡ some p

abbrev started : Run machine
started = record { world = (some "4211\n", some (pos 4_211)); events = [] }

abbrev idle : Run machine
idle = record { world = (some "17", none); events = [] }

probe_self : (p : ℤ) → probe p (some p) ≡ ok tt
probe_self (pos n) = ground arith
probe_self (negsuc n) = ground arith

probe_dead : (p : ℤ) (q : Option ℤ) (e : Error) → probe p q ≡ err e → ¬ (q ≡ some p)
probe_dead p q e h a = let k = sym (ap (probe p) a ∙ probe_self p) ∙ h in cc

machine-IsKernel : (p : ℤ) → IsKernel machine Alive p
machine-IsKernel p = record { null-dead = λ w e h. probe_dead p w.1 e h; remove-dead = λ f w a. a }

machine-IsMachine : IsMachine machine Alive
machine-IsMachine = record {
  start-alive = λ path args w w' pid e.
      let n = ok_inj 4_211 pid (ap (λ x. x.0) e) in
      (sym (ap (λ x. x.1.1) e) ∙ ap (λ m. some (pos m)) n, subst (λ m. m < 2 ^ 63) n (omega arith));
  write-alive = λ f s p w a. a;
  write-reads = λ f s w w' e. sym (ap (λ x. text_of x.1.0) e);
  alive-null = λ p w a. ap (probe p) a ∙ probe_self p;
}

stop_credential_server-Stopping_example :
    Adds machine
      (λ es.
        ((es ≡ [])
          × ¬ (
              (p : ℤ) × (get_process_from_pid_file machine (pid_file_of "/finch") started.world
                ≡ ok p)))
        ⊎ ((p : ℤ) × (get_process_from_pid_file machine (pid_file_of "/finch") started.world ≡ ok p)
            × Stopping p es))
      started
      (stop_credential_server machine "/finch" started).1
stop_credential_server-Stopping_example = stop_credential_server-Stopping machine "/finch" started

pauses-stop_credential_server_example :
    pauses (stop_credential_server machine "/finch" started).1.events ≤ pauses started.events + 20
pauses-stop_credential_server_example = pauses-stop_credential_server machine "/finch" started

stop_credential_server-dead_example :
    Ends machine Alive (pos 4_211) (stop_credential_server machine "/finch" started).1
unfolding stop_credential_server get_process_from_pid_file parse_int trim_space
stop_credential_server-dead_example =
    stop_credential_server-dead machine Alive (pos 4_211) (machine-IsKernel (pos 4_211)) "/finch"
      started refl refl

is_server_running-start_credential_server_example :
    (is_server_running machine "/finch" (start_credential_server machine "/finch" idle).1).0
    ≡ ok true
unfolding start_credential_server parse_int trim_space
is_server_running-start_credential_server_example =
    is_server_running-start_credential_server machine Alive machine-IsMachine "/finch" idle
      (start_credential_server machine "/finch" idle).1 refl

-- The process that does not listen is killed after twenty pauses.
stop_kills : length (stop_credential_server machine "/finch" started).1.events ≡ 43
unfolding stop_credential_server get_process_from_pid_file parse_int trim_space
stop_kills = refl

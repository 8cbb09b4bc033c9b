-- ===== src/Commands/Stop.antt =====
-- rx/client/commands/daemon.py: stopping and restarting the daemon. The state is the pid file.
pub mod Killing
use rx.Base.{
  ℕ, String, ◌<>◌, Bool, true, false, Outcome, ok, raised, Option, none, some, List, [], ◌∷◌, ◌++◌,
  ◌==◌, nat_eq, if◌then◌else◌,
}
use rx.Base.Integers.{ℤ, pos, minus_one}
use rx.Base.Dict.{Dict}
use rx.Base.Text.{show, join}
use rx.Proto.{Reply, Port}
use rx.Daemon.Errors.{
  DaemonError, retry_error, not_found_error, permission_error, Kill, delivered, no_such_process,
  not_permitted,
}
use rx.Daemon.Client.{Called}
use rx.Daemon.Pidfile.{pid, delete}
use rx.Daemon.Manager.{connect_and_kill}

-- The pid file, the pids that were sent a signal, and the outcome.
pub record Stopped {ℓ} (A : Type ℓ) : Type ℓ where
  pub pid_file : Option String
  pub signalled : List ℕ
  pub outcome : Outcome DaemonError A

-- `kill_by_pid`
unfoldable pub kill_by_pid : (ℕ → Kill) → ℕ → Option String → Stopped Bool
kill_by_pid kill n file = elim (kill n) [
  | delivered ↦ record { pid_file = file; signalled = n ∷ []; outcome = ok true }
  | no_such_process ↦ record { pid_file = delete file; signalled = []; outcome = ok false }
  | not_permitted ↦ record { pid_file = file; signalled = []; outcome = raised permission_error }
]

-- The first part of `_run`: whether it is done.
by_pid : (ℕ → Kill) → Outcome DaemonError ℕ → Option String → Stopped Bool
unfolding kill_by_pid
by_pid kill (ok n) file = kill_by_pid kill n file
by_pid kill (raised not_found_error) file = record {
  pid_file = file;
  signalled = [];
  outcome = ok false;
}
by_pid kill (raised e) file = record { pid_file = file; signalled = []; outcome = raised e }

-- Its second part: a `RetryError` means that the daemon was killed.
exit_code : Outcome DaemonError Bool → Outcome DaemonError ℤ
exit_code (ok true) = ok (pos 0)
exit_code (ok false) = ok minus_one
exit_code (raised retry_error) = ok (pos 0)
exit_code (raised e) = raised e

by_request : Called Bool → Option String → List ℕ → Stopped ℤ
unfolding exit_code
by_request (sent, r) file signalled = record {
  pid_file = file;
  signalled = signalled ++ sent;
  outcome = exit_code r;
}

finish :
    (ℕ → Kill) → Reply (List Port) → Outcome DaemonError Bool → Option String → List ℕ → Stopped ℤ
unfolding by_request
finish kill reply (ok true) file signalled = record {
  pid_file = file;
  signalled = signalled;
  outcome = ok (pos 0);
}
finish kill reply (ok false) file signalled =
    by_request (connect_and_kill kill reply) file signalled
finish kill reply (raised e) file signalled = record {
  pid_file = file;
  signalled = signalled;
  outcome = raised e;
}

-- `StopCommand._run`
unfoldable pub stop : (ℕ → Kill) → Reply (List Port) → Option String → Stopped ℤ
unfolding by_pid finish
stop kill reply file =
    let first = by_pid kill (pid file) file in
    finish kill reply first.outcome first.pid_file first.signalled

-- `format_info`
format_ports : Dict ℕ ℕ → List String
format_ports [] = []
format_ports ((lp, rp) ∷ info) =
    (if lp == rp then "localhost:" <> show rp else show rp <> (" -> localhost:" <> show lp))
    ∷ format_ports info

unfoldable pub format_info : Dict ℕ ℕ → String
unfolding format_ports
format_info [] = "No open ports."
format_info (p ∷ info) = "Open ports:\n" <> join "\n" (format_ports (p ∷ info))

-- ===== src/Daemon/Pidfile.antt =====
-- rx/daemon/pidfile.py. The file is its text, or `none` where it cannot be read.
pub mod Roundtrip
use rx.Base.{ℕ, String, ◌<>◌, Bool, true, false, Outcome, ok, raised, Option, none, some, ◌>>=◌}
use rx.Base.Text.{show, int_of}
use rx.Daemon.Errors.{
  DaemonError, not_found_error, value_error, process_lookup_error, Kill, delivered, no_such_process,
  not_permitted, permission_error,
}

abbrev int_or_raise : Option ℕ → Outcome DaemonError ℕ
int_or_raise none = raised value_error
int_or_raise (some n) = ok n

-- `pid`. `int` passes over white space, so the `strip` before it changes nothing.
unfoldable pub pid : Option String → Outcome DaemonError ℕ
pid none = raised not_found_error
pid (some text) = int_or_raise (int_of text)

-- `write`, by the process with this pid.
unfoldable pub write : ℕ → Option String → Option String
write my_pid file = some (show my_pid <> "\n")

-- `delete`. A file that is not there is passed over.
unfoldable pub delete : Option String → Option String
delete file = none

-- The end of `is_running`: signal 0.
unfoldable pub probe : Kill → Outcome DaemonError Bool
probe delivered = ok true
probe no_such_process = ok false
probe not_permitted = raised permission_error

-- The `except` clause around the read of the pid.
probe_pid : (ℕ → Kill) → Outcome DaemonError ℕ → Outcome DaemonError Bool
unfolding probe
probe_pid kill (ok n) = probe (kill n)
probe_pid kill (raised not_found_error) = ok false
probe_pid kill (raised e) = raised e

-- `is_running`
unfoldable pub is_running : (ℕ → Kill) → Option String → Outcome DaemonError Bool
unfolding pid probe_pid
is_running kill file = probe_pid kill (pid file)

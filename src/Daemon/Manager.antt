-- ===== src/Daemon/Manager.antt =====
-- rx/daemon/manager.py: finding, starting and killing the daemon.
pub mod Starting
pub mod Killing
use rx.Base.{
  ℕ, zero, suc, ◌+◌, String, Bool, true, false, Outcome, ok, raised, Option, none, some, List, [],
  ◌∷◌, ◌++◌,
}
use rx.Proto.{Reply, response, rpc_error, RpcError, Port}
use rx.Daemon.Errors.{
  DaemonError, daemon_unavailable, retry_error, not_found_error, assertion_error, Kill,
}
use rx.Daemon.Pidfile
use rx.Daemon.Client
use rx.Daemon.Client.{Called, Metadata, version, handle_rpc_error}

-- What one attempt of `start_daemon` finds: the pid file when the client is made, whether it is
-- still there when `is_running` tests it, and what a call of `GetPorts` gives.
pub record Attempt : Type 0 where
  pub pid_file : Option String
  pub pid_file_exists : Bool
  pub reply : Reply (List Port)

-- The body of the `try` in `start_daemon`: making the client reads the pid.
try_with : (ℕ → Kill) → Attempt → Outcome DaemonError ℕ → Called Bool
try_with kill a (ok pid) = Client.is_running kill a.pid_file_exists a.reply
try_with kill a (raised e) = ([], raised e)

unfoldable pub try_connect : (ℕ → Kill) → Attempt → Called Bool
unfolding try_with
try_connect kill a = try_with kill a (Pidfile.pid a.pid_file)

-- Whether the loop goes on after an attempt: not running, or no pid file yet.
pub data Next : Type 0 where
  connected again : Next
  failed : DaemonError → Next

unfoldable pub next_of : Outcome DaemonError Bool → Next
next_of (ok true) = connected
next_of (ok false) = again
next_of (raised not_found_error) = again
next_of (raised e) = failed e

-- The loop of `start_daemon`, with the attempts that are left, from the one with this number.
unfoldable pub attempt_loop : (ℕ → Kill) → (ℕ → Attempt) → ℕ → ℕ → Called Bool
attempt_loop kill env zero i = ([], ok false)
attempt_loop kill env (suc tries) i =
    let (sent, r) = try_connect kill (env i) in
    let (sent', r') = attempt_loop kill env tries (suc i) in
    elim (next_of r) [
      | connected ↦ (sent, ok true)
      | again ↦ (sent ++ sent', r')
      | failed e ↦ (sent, raised e)
    ]

-- `start_daemon`, after `Popen`.
unfoldable pub start_daemon : (ℕ → Kill) → (ℕ → Attempt) → Called Bool
start_daemon kill env = attempt_loop kill env 5 0

after_handled : List ℕ × DaemonError → Called Bool
after_handled (sent, daemon_unavailable _) = (sent, ok true)
after_handled (sent, e) = (sent, raised e)

-- The metadata of that call: the version, and no pid.
abbrev pub unknown_pid : Metadata
unknown_pid = ("cv", version) ∷ ("pid", "unknown") ∷ []

-- `connect_and_kill`, from what the call of `GetPorts` with the pid "unknown" gave.
unfoldable pub connect_and_kill : (ℕ → Kill) → Reply (List Port) → Called Bool
unfolding after_handled
connect_and_kill kill (response _) = ([], raised assertion_error)
connect_and_kill kill (rpc_error e) = after_handled (handle_rpc_error kill e)

-- The `except` clause of `maybe_start_daemon`, and its last line.
give_up : Called Bool → Called Bool
give_up (sent, raised retry_error) = (sent, ok false)
give_up (sent, raised e) = (sent, raised e)
give_up (sent, ok _) = (sent, ok false)

after_start : (ℕ → Kill) → Reply (List Port) → Called Bool → Called Bool
unfolding give_up
after_start kill reply (sent, ok true) = (sent, ok true)
after_start kill reply (sent, ok false) =
    let (sent', r) = connect_and_kill kill reply in give_up (sent ++ sent', r)
after_start kill reply (sent, raised e) = give_up (sent, raised e)

maybe_start :
    (ℕ → Kill) → (ℕ → Attempt) → Reply (List Port) → Outcome DaemonError Bool → Called Bool
unfolding after_start
maybe_start kill env reply (ok true) = ([], ok true)
maybe_start kill env reply (ok false) = after_start kill reply (start_daemon kill env)
maybe_start kill env reply (raised e) = ([], raised e)

-- `maybe_start_daemon`: the pid file at the start, the attempts, and the reply to the last call.
unfoldable pub maybe_start_daemon :
    (ℕ → Kill) → Option String → (ℕ → Attempt) → Reply (List Port) → Called Bool
unfolding maybe_start
maybe_start_daemon kill file env reply = maybe_start kill env reply (Pidfile.is_running kill file)

-- ===== src/Commands/Daemon.antt =====
-- rx/client/commands/daemon.py: starting, restarting and describing the daemon.
pub mod Leftover
use rx.Base.{ℕ, String, ◌<>◌, Bool, true, false, Outcome, ok, raised, Option, List, [], ◌++◌}
use rx.Base.Integers.{ℤ, pos, minus_one}
use rx.Base.Text.{show}
use rx.Daemon.Errors.{DaemonError, Kill}
use rx.Daemon.Client.{Called}
use rx.Daemon.Pidfile.{pid, is_running}
use rx.Commands.Stop.{Stopped}

-- `0 if … else -1`
code_of : Called Bool → Called ℤ
code_of (sent, ok true) = (sent, ok (pos 0))
code_of (sent, ok false) = (sent, ok minus_one)
code_of (sent, raised e) = (sent, raised e)

starting : Called Bool → Outcome DaemonError Bool → Called ℤ
unfolding code_of
starting started (ok true) = ([], ok (pos 0))
starting started (ok false) = code_of started
starting started (raised e) = ([], raised e)

-- `StartCommand._run`, from what `start_daemon` of the manager would give.
unfoldable pub start : (ℕ → Kill) → Option String → Called Bool → Called ℤ
unfolding starting
start kill file started = starting started (is_running kill file)

after_stop : List ℕ → Outcome DaemonError ℤ → Called Bool → Called ℤ
unfolding code_of
after_stop signalled (raised e) started = (signalled, raised e)
after_stop signalled (ok code) started = let (sent, r) = code_of started in (signalled ++ sent, r)

-- `RestartCommand._run`: a stop that fails only prints a line.
unfoldable pub restart : Stopped ℤ → Called Bool → Called ℤ
unfolding after_stop
restart stopped started = after_stop stopped.signalled stopped.outcome started

described : Outcome DaemonError ℕ → Outcome DaemonError String
described (ok n) = ok ("Daemon is running with pid " <> show n)
described (raised e) = raised e

described_if : Option String → Outcome DaemonError Bool → Outcome DaemonError String
unfolding described
described_if file (ok true) = described (pid file)
described_if file (ok false) = ok "Daemon is not running. Run `rx daemon start` to start it."
described_if file (raised e) = raised e

-- `InfoCommand._run`: the line that it prints.
unfoldable pub info : (ℕ → Kill) → Option String → Outcome DaemonError String
unfolding described_if
info kill file = described_if file (is_running kill file)

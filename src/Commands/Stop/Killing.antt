-- ===== src/Commands/Stop/Killing.antt =====
-- commands/daemon.py with manager.py, pidfile.py and interceptors.py: which daemon is stopped.
use rx.Base.{ℕ, ◌≡◌, String, ok, Option, none, List, [], ◌∷◌, string_eq}
use rx.Base.Integers.{pos}
use rx.Proto.{Reply, rpc_error, RpcError, Port}
use rx.Daemon.Errors.{Kill, delivered, no_such_process}
use rx.Daemon.Pidfile.{write, delete}
use rx.Daemon.Pidfile.Roundtrip.{pid-write}
use rx.Daemon.Interceptors.{intercepted}
use rx.Daemon.Manager.{unknown_pid}
use rx.Daemon.Manager.Killing.{connect_and_kill-intercepted}
use rx.Commands.Stop.{kill_by_pid, by_pid, stop}

-- If the process of the pid file that a daemon has written can be signalled, it alone is, and the
-- exit code is 0, whatever a request would find.
pub stop-write :
    (kill : ℕ → Kill) (n : ℕ) (file : Option String) (reply : Reply (List Port))
    → kill n ≡ delivered
    → stop kill reply (write n file)
      ≡ record { pid_file = write n file; signalled = n ∷ []; outcome = ok (pos 0) }
unfolding stop
stop-write kill n file reply h = rw (pid-write, by_pid, h, kill_by_pid)

-- If the process of the pid file is gone, and another daemon answers at the port, the answer to the request is a
-- refusal which makes the command signal that daemon alone; the stale file is removed, and the exit
-- code is 0.
pub stop_stale :
    (kill : ℕ → Kill) (n my_pid : ℕ) (file : Option String) (ports : List Port)
    → kill n ≡ no_such_process
    → kill my_pid ≡ delivered
    → (e : RpcError) × (intercepted my_pid ports unknown_pid ≡ ok (rpc_error e))
      × (stop kill (rpc_error e) (write n file)
          ≡ record { pid_file = none; signalled = my_pid ∷ []; outcome = ok (pos 0) })
unfolding stop delete
stop_stale kill n my_pid file ports gone alive =
    let (e, refused, killed) = connect_and_kill-intercepted my_pid ports kill alive in
    (e, refused, rw (pid-write, by_pid, gone, kill_by_pid) (rw killed))

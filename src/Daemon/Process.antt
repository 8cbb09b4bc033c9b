-- ===== src/Daemon/Process.antt =====
-- rx/daemon/daemon.py and rx/daemon/server.py: how the daemon's process starts, serves and ends.
pub mod Ending
use rx.Base.{
  ℕ, String, Bool, true, false, Outcome, ok, raised, Option, none, some, List, [], ◌∷◌, ◌==◌,
  nat_eq, if◌then◌else◌,
}
use rx.Daemon.Errors.{DaemonError, not_found_error, Kill, delivered, no_such_process, not_permitted}
use rx.Daemon.Forwarder.{PortForwarder}
use rx.Daemon.Pidfile
use rx.Daemon.Service.{Ports, close_ports}
use rx.Daemon.Service.Requests.{Request, open_req, close_req, interrupt, serve_one}

-- The process, as far as `daemonize` sets it up.
pub record Process : Type 0 where
  pub pid : ℕ
  pub session : ℕ
  pub in_rxroot : Bool
  pub dumps_core : Bool
  pub quiet : Bool
  -- Whether `atexit` deletes the pid file.
  pub delete_at_exit : Bool

-- What `os.fork` gives: in the parent, in the child with this pid, or an `OSError`.
pub data Fork : Type 0 where
  in_parent : Fork
  in_child : ℕ → Fork
  fork_failed : Fork

-- How a process ends, as seen from inside: `sys.exit`, an exception that nothing catches, or SIGTERM.
-- `waiting` has not ended.
pub data Ended : Type 0 where
  exited : ℕ → Ended
  uncaught : DaemonError → Ended
  terminated : Ended
  waiting : Ended

-- `_fork`: `sys.exit` raises, with the code.
unfoldable pub fork : Fork → Process → Outcome ℕ Process
fork in_parent p = raised 0
fork (in_child n) p = ok (record p { pid = n })
fork fork_failed p = raised 1

-- `os.setsid`
abbrev setsid : Process → Process
setsid p = record p { session = p.pid }

-- `prevent_core_dump`: whether the platform has the limit.
unfoldable pub prevent_core_dump : Bool → Process → Process
prevent_core_dump false p = p
prevent_core_dump true p = record p { dumps_core = false }

abbrev blackhole_streams : Process → Process
blackhole_streams p = record p { quiet = true }

-- The end of `daemonize`, after the second fork.
settle : Outcome ℕ Process → Option String → Outcome ℕ Process × Option String
settle (raised code) file = (raised code, file)
settle (ok p) file =
    (ok (record (blackhole_streams p) { delete_at_exit = true }), Pidfile.write p.pid file)

fork_again : Fork → Outcome ℕ Process → Outcome ℕ Process
unfolding fork
fork_again second (raised code) = raised code
fork_again second (ok p) = fork second (setsid p)

-- `daemonize`: the process, or the code that it exits with, and the pid file.
unfoldable pub daemonize :
    Bool → Fork → Fork → Process → Option String → Outcome ℕ Process × Option String
unfolding fork prevent_core_dump settle fork_again
daemonize has_limit first second p file =
    settle
      (fork_again second (fork first (prevent_core_dump has_limit (record p { in_rxroot = true }))))
      file

-- The pid file, the SIGTERMs that were sent, and the end of the process.
pub record Stopped : Type 0 where
  pub pid_file : Option String
  pub signalled : List ℕ
  pub ended : Ended

-- The loop of `stop` in the process `me`, with what each `os.kill` gives. A SIGTERM to the process
-- itself ends it inside the call: nothing handles that signal.
unfoldable pub kill_loop : ℕ → ℕ → List Kill → Option String → Stopped
unfolding Pidfile.delete
kill_loop me pid [] file = record { pid_file = file; signalled = []; ended = waiting }
kill_loop me pid (delivered ∷ kills) file =
    let rest = kill_loop me pid kills file in
    if pid == me
    then record { pid_file = file; signalled = pid ∷ []; ended = terminated }
    else record rest { signalled = pid ∷ rest.signalled }
kill_loop me pid (no_such_process ∷ kills) file = record {
  pid_file = Pidfile.delete file;
  signalled = [];
  ended = exited 0;
}
kill_loop me pid (not_permitted ∷ kills) file = record {
  pid_file = file;
  signalled = [];
  ended = exited 1;
}

stop_pid : ℕ → List Kill → Outcome DaemonError ℕ → Option String → Stopped
unfolding kill_loop
stop_pid me kills (raised e) file = record { pid_file = file; signalled = []; ended = uncaught e }
stop_pid me kills (ok pid) file =
    if pid == 0
    then record { pid_file = file; signalled = []; ended = exited 0 }
    else kill_loop me pid kills file

-- `stop`, as the last thing that the process does.
unfoldable pub stop : ℕ → List Kill → Option String → Stopped
unfolding stop_pid
stop me kills file = stop_pid me kills (Pidfile.pid file) file

-- `atexit` runs unless a signal ends the process.
run_atexit : Bool → Option String → Ended → Option String
unfolding Pidfile.delete
run_atexit false file e = file
run_atexit true file terminated = file
run_atexit true file waiting = file
run_atexit true file (exited code) = Pidfile.delete file
run_atexit true file (uncaught e) = Pidfile.delete file

unfoldable pub at_exit : Bool → Stopped → Stopped
unfolding run_atexit
at_exit delete_at_exit s = record s { pid_file = run_atexit delete_at_exit s.pid_file s.ended }

-- What `add_insecure_port` does.
pub data AddPort : Type 0 where
  added : AddPort
  runtime_error : String → AddPort

-- The handler of SIGINT: `cleanup` closes the ports and stops the server. Up to it the requests are
-- served; with none left, the server waits.
unfoldable pub serve_until : List Request → Ports → Option (List PortForwarder)
unfolding serve_one close_ports
serve_until [] ports = none
serve_until (interrupt ∷ rs) ports = some (close_ports ports).0
serve_until (r ∷ rs) ports = serve_until rs (serve_one r ports)

-- `_start_server`: the forwarders that it stopped, once it returns.
unfoldable pub start_server : AddPort → List Request → Option (List PortForwarder)
unfolding serve_until
start_server (runtime_error message) rs = some []
start_server added rs = serve_until rs []

leave : List Kill → Option String → Process → Option (List PortForwarder) → Stopped
unfolding stop at_exit
leave kills file p none = record { pid_file = file; signalled = []; ended = waiting }
leave kills file p (some stopped) = at_exit p.delete_at_exit (stop p.pid kills file)

enter :
    AddPort
    → List Request
    → (Option String → Option String)
    → List Kill
    → Outcome ℕ Process × Option String
    → Stopped
unfolding leave start_server
enter port rs meanwhile kills (raised code, file) = record {
  pid_file = file;
  signalled = [];
  ended = exited code;
}
enter port rs meanwhile kills (ok p, file) = leave kills (meanwhile file) p (start_server port rs)

-- `start_daemon`: `meanwhile` is what others do to the pid file before the process stops.
unfoldable pub start_daemon :
    Bool
    → Fork
    → Fork
    → Process
    → AddPort
    → List Request
    → (Option String → Option String)
    → List Kill
    → Option String
    → Stopped
unfolding daemonize enter
start_daemon has_limit first second p port rs meanwhile kills file =
    enter port rs meanwhile kills (daemonize has_limit first second p file)

-- ===== src/Daemon/Process/Ending.antt =====
-- daemon.py and server.py: what a daemon leaves behind when it ends.
use rx.Base.{
  ℕ, zero, suc, String, ◌≡◌, ◌≢◌, refl, ap, Bool, true, ok, Option, none, some, List, [], ◌∷◌, ◌++◌,
  map, arith, nat_eq,
}
use rx.Base.Dict.{values}
use rx.Daemon.Errors.{Kill, delivered, no_such_process}
use rx.Daemon.Forwarder
use rx.Daemon.Forwarder.{PortForwarder}
use rx.Daemon.Pidfile.{pid, write}
use rx.Daemon.Pidfile.Roundtrip.{pid-write}
use rx.Daemon.Service.{Ports, close_ports}
use rx.Daemon.Service.Requests.{Request, open_req, close_req, interrupt, serve}
use rx.Daemon.Process.{
  Process, Fork, in_parent, in_child, fork_failed, exited, terminated, daemonize, kill_loop,
  stop_pid, stop, at_exit, AddPort, serve_until, start_server, start_daemon,
}

abbrev pub repeat {ℓ} : {A : Type ℓ} → ℕ → A → List A
repeat zero a = []
repeat (suc k) a = a ∷ repeat k a

-- A process that `daemonize` lets go on.
pub record IsDetached (p : Process) (file : Option String) : Type 0 where
  pub no_leader : p.pid ≢ p.session
  pub quiet : p.quiet ≡ true
  pub in_rxroot : p.in_rxroot ≡ true
  pub on_file : pid file ≡ ok p.pid

-- If the first fork gives a child, and the second one a child with another pid, then the process that
-- `daemonize` lets go on leads no session, its streams go to /dev/null, it stands in the root of the
-- workspace, and the pid file names it.
pub daemonize-IsDetached :
    (has_limit : Bool) (a : ℕ) (second : Fork) (p q : Process) (file : Option String)
    → second ≢ in_child a
    → (daemonize has_limit (in_child a) second p file).0 ≡ ok q
    → IsDetached q (daemonize has_limit (in_child a) second p file).1
unfolding daemonize
daemonize-IsDetached l a (in_child b) p q file ne h = ground (arith, pid-write b file)
daemonize-IsDetached l a in_parent p q file ne h = ground arith
daemonize-IsDetached l a fork_failed p q file ne h = ground arith

-- No request is a SIGINT.
abbrev pub Uninterrupted : List Request → Type 0
Uninterrupted [] = Unit
Uninterrupted (interrupt ∷ rs) = ⊥
Uninterrupted (_ ∷ rs) = Uninterrupted rs

-- A daemon stops serving at the first SIGINT, and then stops every forwarder of the table that the
-- requests before it have made; what comes after it is not served.
pub serve_until-interrupt :
    (before rest : List Request) (ports : Ports)
    → Uninterrupted before
    → serve_until (before ++ (interrupt ∷ rest)) ports
      ≡ some (map Forwarder.stop (values (serve before ports)))
unfolding serve_until serve close_ports
serve_until-interrupt [] rest ports u = refl
serve_until-interrupt (interrupt ∷ rs) rest ports u = absurd u
serve_until-interrupt (open_req config bind req ∷ rs) rest ports u =
    serve_until-interrupt rs rest _ u
serve_until-interrupt (close_req port ∷ rs) rest ports u = serve_until-interrupt rs rest _ u

kill_loop_other :
    (me m k : ℕ) (kills : List Kill) (file : Option String)
    → m ≢ me
    → kill_loop me m (repeat k delivered ++ (no_such_process ∷ kills)) file
      ≡ record { pid_file = none; signalled = repeat k m; ended = exited 0 }
unfolding kill_loop
kill_loop_other me m zero kills file ne = refl
kill_loop_other me m (suc k) kills file ne =
    rw (kill_loop_other me m k kills file ne) (ground arith)

stop_self :
    (me : ℕ) (kills : List Kill) (file : Option String)
    → me ≢ 0
    → stop me (delivered ∷ kills) (write me file)
      ≡ record { pid_file = write me file; signalled = me ∷ []; ended = terminated }
unfolding stop
stop_self me kills file nz = rw (pid-write me file) (ground (arith, stop_pid, kill_loop))

stop_other :
    (me m k : ℕ) (kills : List Kill) (file : Option String)
    → m ≢ 0
    → m ≢ me
    → stop me (repeat k delivered ++ (no_such_process ∷ kills)) (write m file)
      ≡ record { pid_file = none; signalled = repeat k m; ended = exited 0 }
unfolding stop
stop_other me m k kills file nz ne =
    rw (pid-write m file) (ground (arith, kill_loop_other me m k kills (write m file) ne))

module _ (has_limit : Bool) (a n : ℕ) (p : Process) (port : AddPort) (rs : List Request)
    (stopped : List PortForwarder) (file : Option String) where
  -- A daemon whose pid file is still its own when its server ends, be it by a SIGINT or because its
  -- port cannot be bound, sends SIGTERM to itself and ends by that; its pid file goes on holding its
  -- pid.
  pub start_daemon_self :
      (kills : List Kill)
      → n ≢ 0
      → start_server port rs ≡ some stopped
      → start_daemon has_limit (in_child a) (in_child n) p port rs (λ f. f) (delivered ∷ kills) file
        ≡ record { pid_file = write n file; signalled = n ∷ []; ended = terminated }
  unfolding start_daemon
  start_daemon_self kills nz h = rw h (ap (at_exit true) (stop_self n kills file nz))

  -- A daemon whose pid file has meanwhile been written by another process sends SIGTERM to that
  -- process until it is gone, and then deletes its pid file.
  pub start_daemon_other :
      (m k : ℕ) (kills : List Kill)
      → m ≢ 0
      → m ≢ n
      → start_server port rs ≡ some stopped
      → start_daemon has_limit
          (in_child a)
          (in_child n)
          p
          port
          rs
          (write m)
          (repeat k delivered ++ (no_such_process ∷ kills))
          file
        ≡ record { pid_file = none; signalled = repeat k m; ended = exited 0 }
  unfolding start_daemon
  start_daemon_other m k kills mz ne h =
      rw h (ap (at_exit true) (stop_other n m k kills (write n file) mz ne))

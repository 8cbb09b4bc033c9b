-- ===== src/Commands/Daemon/Leftover.antt =====
-- commands/daemon.py with daemon.py and server.py: the commands after a daemon has ended.
use rx.Base.{ℕ, ◌≡◌, ◌≢◌, ap, Bool, ok, String, Option, some, List, [], ◌∷◌}
use rx.Base.Integers.{pos}
use rx.Proto.{Reply, Port}
use rx.Daemon.Errors.{Kill, delivered}
use rx.Daemon.Forwarder.{PortForwarder}
use rx.Daemon.Client.{Called}
use rx.Daemon.Pidfile.{write, probe}
use rx.Daemon.Pidfile.Roundtrip.{is_running-write}
use rx.Daemon.Service.Requests.{Request}
use rx.Daemon.Process.{Process, in_child, AddPort, start_server, start_daemon}
use rx.Daemon.Process.Ending.{start_daemon_self}
use rx.Commands.Stop.{stop}
use rx.Commands.Stop.Killing.{stop-write}
use rx.Commands.Daemon.{starting, start}

start-write :
    (kill : ℕ → Kill) (n : ℕ) (file : Option String) (started : Called Bool)
    → kill n ≡ delivered
    → start kill (write n file) started ≡ ([], ok (pos 0))
unfolding start probe
start-write kill n file started h = rw (is_running-write n file kill).0 (rw (h, starting))

counts :
    (kill : ℕ → Kill) (n : ℕ) (file left : Option String) (started : Called Bool)
    (reply : Reply (List Port))
    → kill n ≡ delivered
    → left ≡ write n file
    → (start kill left started ≡ ([], ok (pos 0)))
      × (stop kill reply left
          ≡ record { pid_file = left; signalled = n ∷ []; outcome = ok (pos 0) })
counts kill n file left started reply h e =
    rw e (start-write kill n file started h, stop-write kill n file reply h)

module _ (has_limit : Bool) (a n : ℕ) (p : Process) (port : AddPort) (rs : List Request)
    (stopped : List PortForwarder) (file : Option String) (kills : List Kill) where
  -- The pid file after the daemon has ended, with nobody else writing it.
  abbrev pub leftover : Option String
  leftover =
      (start_daemon has_limit (in_child a) (in_child n) p port rs (λ f. f) (delivered ∷ kills)
        file).pid_file

  pub leftover_pid :
      (kill : ℕ → Kill) (started : Called Bool) (reply : Reply (List Port))
      → n ≢ 0
      → start_server port rs ≡ some stopped
      → kill n ≡ delivered
      → (start kill leftover started ≡ ([], ok (pos 0)))
        × (stop kill reply leftover
            ≡ record { pid_file = leftover; signalled = n ∷ []; outcome = ok (pos 0) })
  leftover_pid kill started reply nz returns h = counts kill n file leftover started reply h (
      ap (λ s. s.pid_file)
        (start_daemon_self has_limit a n p port rs stopped file kills nz returns))

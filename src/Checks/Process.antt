-- ===== src/Checks/Process.antt =====
-- The daemon's process, and the commands for its ports, at concrete inputs.
use rx.Base.{
  ℕ, String, ◌≡◌, refl, true, false, ok, Option, none, some, [], ◌∷◌, ◌++◌, arith, if◌then◌else◌,
  nat_eq,
}
use rx.Base.Integers.{pos, minus_one}
use rx.Base.Text.{int_of}
use rx.Proto.{response}
use rx.Daemon.Errors.{Kill, delivered, no_such_process}
use rx.Daemon.Forwarder.{Bind, bound}
use rx.Daemon.Pidfile.{write}
use rx.Daemon.Service.{Ports}
use rx.Daemon.Service.Requests.{interrupt, can_open}
use rx.Daemon.Process.{
  Process, in_child, exited, terminated, daemonize, added, runtime_error, start_server,
  start_daemon,
}
use rx.Daemon.Process.Ending.{repeat, start_daemon_self, start_daemon_other}
use rx.Daemon.Manager.{Attempt, maybe_start_daemon}
use rx.Commands.Stop.{stop}
use rx.Commands.Daemon.{start}
use rx.Commands.Daemon.Leftover.{leftover, leftover_pid}
use rx.Commands.Ports.{open_port, run}
use rx.Commands.Ports.Serving.{daemon, open_port_served}

abbrev shell : Process
shell = record {
  pid = 10;
  session = 1;
  in_rxroot = false;
  dumps_core = true;
  quiet = false;
  delete_at_exit = false;
}

abbrev detached : Process
detached = record {
  pid = 12;
  session = 11;
  in_rxroot = true;
  dumps_core = false;
  quiet = true;
  delete_at_exit = true;
}

is_detached : (daemonize true (in_child 11) (in_child 12) shell none).0 ≡ ok detached
unfolding daemonize
is_detached = refl

in_use_returns : start_server (runtime_error "Failed to bind") [] ≡ some []
unfolding start_server
in_use_returns = refl

-- The pid file of a daemon that runs is overwritten by one that cannot bind.
start_daemon_self_example :
    start_daemon true
      (in_child 11)
      (in_child 12)
      shell
      (runtime_error "Failed to bind")
      []
      (λ f. f)
      (delivered ∷ [])
      (write 5 none)
    ≡ record { pid_file = write 12 (write 5 none); signalled = 12 ∷ []; ended = terminated }
start_daemon_self_example =
    start_daemon_self true 11 12 shell (runtime_error "Failed to bind") [] [] (write 5 none) []
      (omega arith) in_use_returns

interrupt_returns : start_server added (interrupt ∷ []) ≡ some []
unfolding start_server
interrupt_returns = refl

start_daemon_other_example :
    start_daemon true
      (in_child 11)
      (in_child 12)
      shell
      added
      (interrupt ∷ [])
      (write 77)
      (repeat 2 delivered ++ (no_such_process ∷ []))
      none
    ≡ record { pid_file = none; signalled = repeat 2 77; ended = exited 0 }
start_daemon_other_example =
    start_daemon_other true 11 12 shell added (interrupt ∷ []) [] none 77 2 [] (omega arith)
      (omega arith) interrupt_returns

abbrev alive : ℕ → Kill
alive n = delivered

abbrev never : ℕ → Attempt
never i = record { pid_file = none; pid_file_exists = false; reply = response [] }

abbrev every : ℕ → Bind
every port = bound

abbrev empty_table : Ports
empty_table = []

abbrev eight : String
eight = "8080"

eight_is : int_of eight ≡ some 8080
unfolding int_of
eight_is = refl

open_port_served_example :
    let r =
      run
        (open_port alive (daemon 12 "a" every empty_table) 80 (eight ∷ []))
        (write 12 none)
        (maybe_start_daemon alive (write 12 none) never (response [])) in
    (r.signalled ≡ [])
    × (r.outcome
        ≡ ok (
            if can_open every (record { port = 8080; local_port = 80 }) empty_table
            then pos 0
            else minus_one))
open_port_served_example =
    open_port_served 12 "a" every empty_table alive never (response []) none eight [] 8080 80 refl
      eight_is (omega arith)

abbrev left : Option String
left = leftover true 11 12 shell added (interrupt ∷ []) [] none []

leftover_pid_example :
    (start alive left ([], ok false) ≡ ([], ok (pos 0)))
    × (stop alive (response []) left
        ≡ record { pid_file = left; signalled = 12 ∷ []; outcome = ok (pos 0) })
leftover_pid_example =
    leftover_pid true 11 12 shell added (interrupt ∷ []) [] none [] alive ([], ok false)
      (response []) (omega arith) interrupt_returns refl

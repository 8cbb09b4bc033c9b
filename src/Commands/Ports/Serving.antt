-- ===== src/Commands/Ports/Serving.antt =====
-- port.py with rx/daemon: what the commands do to the ports of a daemon that runs.
use rx.Base.{
  ℕ, String, ◌≡◌, ◌≢◌, refl, Bool, true, false, is_some, Outcome, ok, raised, Option, some, List,
  [], ◌∷◌, arith, ◌==◌, nat_eq, string_eq, if◌then◌else◌,
}
use rx.Base.Integers.{pos, minus_one}
use rx.Base.Dict.{lookup}
use rx.Base.Text.{int_of}
use rx.Proto.{Result, Reply, response, rpc_error, RpcError, other_status, Port, no_error}
use rx.Daemon.Errors.{DaemonError, port_error, Kill, delivered}
use rx.Daemon.Forwarder.{ForwardError, Bind}
use rx.Daemon.Pidfile.{write}
use rx.Daemon.Pidfile.Roundtrip.{pid-write}
use rx.Daemon.Client
use rx.Daemon.Client.{Metadata, call_metadata, check_result, handle_rpc_error}
use rx.Daemon.Manager.{Attempt, maybe_start_daemon}
use rx.Daemon.Manager.Starting.{maybe_start_daemon_running}
use rx.Daemon.Interceptors.{intercepted}
use rx.Daemon.Interceptors.Refusals.{intercepted-call_metadata}
use rx.Daemon.Service.{Ports, local_port_of, not_forwarded}
use rx.Daemon.Service
use rx.Daemon.Service.Requests.{
  can_open, IsOpenResult, met, port_taken, not_met, open_port-IsOpenResult, close_port_outcome,
}
use rx.Commands.Ports.{
  Stub, Ran, daemon_fault, with_client, opened_port, closed_port, or_unavailable, open_port,
  close_port, run,
}

by_number : {A : Type 0} (port : ℕ) (a b : A) → port ≢ 0 → (if port == 0 then a else b) ≡ b
by_number port a b nz = ground arith

-- An exception on the side of the daemon reaches the client with the status UNKNOWN.
abbrev unknown : RpcError
unknown = record { code = other_status; details = ""; initial_metadata = [] }

replied {ℓ} : {A : Type ℓ} → Outcome ForwardError A → Reply A
replied (ok a) = response a
replied (raised e) = rpc_error unknown

checked {ℓ} :
    {A : Type ℓ} → Outcome DaemonError (Reply (Unit {0})) → Outcome ForwardError A → Reply A
unfolding replied
checked (ok (response _)) r = replied r
checked (ok (rpc_error e)) r = rpc_error e
checked (raised e) r = rpc_error unknown

module _ (my_pid : ℕ) (addr : String) (bind : ℕ → Bind) (ports : Ports) where
  -- A daemon with this pid and this table, behind its interceptors.
  unfoldable pub daemon : Stub
  unfolding checked
  daemon = record {
    open_port =
        λ m req. checked (intercepted my_pid tt m) (Service.open_port (ok addr) bind req ports).0;
    close_port = λ m port. checked (intercepted my_pid tt m) (ok (Service.close_port port ports).0);
    get_ports = λ m. checked (intercepted my_pid tt m) (ok (Service.get_ports ports));
  }

  module _ (kill : ℕ → Kill) (env : ℕ → Attempt) (reply : Reply (List Port))
      (file : Option String) where
    -- The daemon counts as running, so none is started, and the command's client has its pid.
    run_running :
        (call : ℕ → Ran)
        → kill my_pid ≡ delivered
        → run call (write my_pid file) (maybe_start_daemon kill (write my_pid file) env reply)
          ≡ or_unavailable (call my_pid).signalled (call my_pid).printed (call my_pid).outcome
    unfolding run
    run_running call alive =
        rw (maybe_start_daemon_running kill my_pid file env reply alive)
          (rw (pid-write my_pid file, with_client) refl)

    -- What is printed and returned for a result of `OpenPort`.
    opening : ℕ → ℕ → Outcome ForwardError Result → Ran
    opening port local_port r =
        let q = opened_port port local_port (check_result kill (replied r)) in
        or_unavailable q.signalled q.printed q.outcome

    called_open :
        (port local_port : ℕ)
        → Client.open_port kill (daemon.open_port (call_metadata my_pid)) port (some local_port)
          ≡ check_result kill (
              replied
                (Service.open_port
                  (ok addr)
                  bind
                  (record { port = port; local_port = local_port })
                  ports).0)
    unfolding daemon Client.open_port
    called_open port lp = rw (intercepted-call_metadata {0} my_pid tt, checked) refl

    called_close :
        (port : ℕ)
        → Client.close_port kill (daemon.close_port (call_metadata my_pid)) port
          ≡ check_result kill (response (Service.close_port port ports).0)
    unfolding daemon Client.close_port replied
    called_close port = rw (intercepted-call_metadata {0} my_pid tt, checked) refl

    -- What is returned for a result of `ClosePort`.
    closing : ℕ → Result → Ran
    closing port r =
        let q = closed_port port (check_result kill (response r)) in
        or_unavailable q.signalled q.printed q.outcome

    closing-if :
        (port : ℕ) (found : Bool)
        → ((closing port (if found then no_error else not_forwarded port)).signalled ≡ [])
          × ((closing port (if found then no_error else not_forwarded port)).outcome ≡ (
              if found
              then ok (pos 0)
              else raised (daemon_fault (port_error (not_forwarded port).message))))
    unfolding closing check_result closed_port or_unavailable nat_eq
    closing-if port true = (refl, refl)
    closing-if port false = (refl, refl)

    opening-IsOpenResult :
        (port local_port : ℕ) (can : Bool) (r : Outcome ForwardError Result)
        → IsOpenResult can r
        → ((opening port local_port r).signalled ≡ [])
          × ((opening port local_port r).outcome ≡ ok (if can then pos 0 else minus_one))
    unfolding check_result replied opened_port or_unavailable handle_rpc_error opening nat_eq
    opening-IsOpenResult port lp _ _ met = (refl, refl)
    opening-IsOpenResult port lp _ _ (port_taken message) = (refl, refl)
    opening-IsOpenResult port lp _ _ (not_met e) = (refl, refl)

    pub open_port_served :
        (arg : String) (argv : List String) (port local_port : ℕ)
        → kill my_pid ≡ delivered
        → int_of arg ≡ some port
        → port ≢ 0
        → let r =
            run
              (open_port kill daemon local_port (arg ∷ argv))
              (write my_pid file)
              (maybe_start_daemon kill (write my_pid file) env reply) in
          (r.signalled ≡ [])
          × (r.outcome
              ≡ ok (
                  if can_open bind (record { port = port; local_port = local_port }) ports
                  then pos 0
                  else minus_one))
    unfolding open_port opening
    open_port_served arg argv port local_port alive e nz = rw (run_running _ alive) (
        rw e (
          rw (by_number port _ _ nz) (
            rw (called_open port local_port) (
              opening-IsOpenResult port local_port _ _ (
                open_port-IsOpenResult addr bind (record { port = port; local_port = local_port })
                  ports)))))

    -- With the pid file of a living daemon, and a port that is a number other than 0, `rx ws
    -- close-port` sends no signal. Its exit code is 0 if the port is a local port of the table of the
    -- daemon; otherwise it does not return, but ends in a `PortError` that nothing catches.
    pub close_port_served :
        (arg : String) (argv : List String) (port : ℕ)
        → kill my_pid ≡ delivered
        → int_of arg ≡ some port
        → port ≢ 0
        → let r =
            run
              (close_port kill daemon (arg ∷ argv))
              (write my_pid file)
              (maybe_start_daemon kill (write my_pid file) env reply) in
          (r.signalled ≡ [])
          × (r.outcome ≡ (
              if is_some (lookup port ports)
              then ok (pos 0)
              else raised (daemon_fault (port_error (not_forwarded port).message))))
    unfolding close_port closing
    close_port_served arg argv port alive e nz = rw (run_running _ alive) (
        rw e (
          rw (by_number port _ _ nz) (
            rw (called_close port) (
              rw (close_port_outcome port port ports).0
                (closing-if port (is_some (lookup port ports)))))))

-- ===== src/Commands/Ports.antt =====
-- rx/client/commands/workspace/port.py: opening and closing a port, and listing them.
pub mod Serving
use rx.Base.{
  ℕ, String, ◌<>◌, Bool, true, false, Outcome, ok, raised, Option, none, some, List, [], ◌∷◌, ◌++◌,
  ◌==◌, nat_eq, if◌then◌else◌,
}
use rx.Base.Integers.{ℤ, pos, minus_one}
use rx.Base.Dict.{Dict}
use rx.Base.Text.{show, int_of}
use rx.Proto.{Reply, Result, OpenPortRequest, Port}
use rx.Daemon.Errors.{DaemonError, daemon_unavailable, port_error, value_error, Kill}
use rx.Daemon.Pidfile
use rx.Daemon.Client
use rx.Daemon.Client.{Called, Metadata, call_metadata}
use rx.Commands.Stop.{format_info}

pub data PortFault : Type 0 where
  argument_error : String → PortFault
  daemon_fault : DaemonError → PortFault

-- What a command has done: the pids that were sent SIGTERM, the lines of its two streams, in order,
-- and how it ends.
pub record Ran : Type 0 where
  pub signalled : List ℕ
  pub printed : List String
  pub outcome : Outcome PortFault ℤ

-- A command that has sent nothing yet.
abbrev pub says : List String → Outcome PortFault ℤ → Ran
says lines r = record { signalled = []; printed = lines; outcome = r }

-- The methods of the client, over what the daemon gives for the metadata of a client with this pid.
pub record Stub : Type 0 where
  pub open_port : Metadata → OpenPortRequest → Reply Result
  pub close_port : Metadata → ℕ → Reply Result
  pub get_ports : Metadata → Reply (List Port)

-- The `except` clause around `open_port`, and the end of the command.
opened_port : ℕ → ℕ → Called (Unit {0}) → Ran
opened_port port local_port (sent, raised (port_error message)) = record {
  signalled = sent;
  printed = message ∷ [];
  outcome = ok minus_one;
}
opened_port port local_port (sent, raised e) = record {
  signalled = sent;
  printed = [];
  outcome = raised (daemon_fault e);
}
opened_port port local_port (sent, ok _) = record {
  signalled = sent;
  printed =
      ("Forwarded port "
        <> (show port <> (if local_port == 0 then "" else " to localhost:" <> show local_port)))
      ∷ [];
  outcome = ok (pos 0);
}

open_number : (ℕ → Kill) → Stub → ℕ → ℕ → String → Option ℕ → Ran
unfolding opened_port
open_number kill stub pid local_port arg none = says [] (raised (daemon_fault value_error))
open_number kill stub pid local_port arg (some port) =
    if port == 0
    then says [] (raised (argument_error ("Invalid port number: " <> arg)))
    else opened_port port local_port
        (Client.open_port kill (stub.open_port (call_metadata pid)) port (some local_port))

-- `OpenPortCommand._call_daemon`, with the value of `--local-port`, 0 unless it is given.
unfoldable pub open_port : (ℕ → Kill) → Stub → ℕ → List String → ℕ → Ran
unfolding open_number
open_port kill stub local_port [] pid = says [] (raised (argument_error "Port must be specified"))
open_port kill stub local_port (arg ∷ _) pid = open_number kill stub pid local_port arg (int_of arg)

-- Nothing catches a `PortError` here.
closed_port : ℕ → Called (Unit {0}) → Ran
closed_port port (sent, raised e) = record {
  signalled = sent;
  printed = [];
  outcome = raised (daemon_fault e);
}
closed_port port (sent, ok _) = record {
  signalled = sent;
  printed = ("Closed port " <> show port) ∷ [];
  outcome = ok (pos 0);
}

close_number : (ℕ → Kill) → Stub → ℕ → String → Option ℕ → Ran
unfolding closed_port
close_number kill stub pid arg none = says [] (raised (daemon_fault value_error))
close_number kill stub pid arg (some port) =
    if port == 0
    then says (("Invalid port number: " <> arg) ∷ []) (ok minus_one)
    else closed_port port (Client.close_port kill (stub.close_port (call_metadata pid)) port)

-- `ClosePortCommand._call_daemon`
unfoldable pub close_port : (ℕ → Kill) → Stub → List String → ℕ → Ran
unfolding close_number
close_port kill stub [] pid = says ("Error: port must be specified" ∷ []) (ok minus_one)
close_port kill stub (arg ∷ _) pid = close_number kill stub pid arg (int_of arg)

told : Called (Dict ℕ ℕ) → Ran
unfolding format_info
told (sent, ok info) = record {
  signalled = sent;
  printed = format_info info ∷ [];
  outcome = ok (pos 0);
}
told (sent, raised e) = record { signalled = sent; printed = []; outcome = raised (daemon_fault e) }

-- `PortInfoCommand._call_daemon`
unfoldable pub port_info : (ℕ → Kill) → Stub → ℕ → Ran
unfolding told
port_info kill stub pid = told (Client.info kill (stub.get_ports (call_metadata pid)))

-- The `except` clause of `Command._run`.
or_unavailable : List ℕ → List String → Outcome PortFault ℤ → Ran
or_unavailable sent lines (raised (daemon_fault (daemon_unavailable details))) = record {
  signalled = sent;
  printed = lines ++ (("Could not connect to daemon: " <> details) ∷ []);
  outcome = ok minus_one;
}
or_unavailable sent lines r = record { signalled = sent; printed = lines; outcome = r }

-- Making the client reads the pid, outside of the `try`.
with_client : (ℕ → Ran) → Outcome DaemonError ℕ → Ran
unfolding or_unavailable
with_client call (raised e) = says [] (raised (daemon_fault e))
with_client call (ok pid) = let r = call pid in or_unavailable r.signalled r.printed r.outcome

after_start : (ℕ → Ran) → Option String → Called Bool → Ran
unfolding with_client
after_start call file (sent, ok true) =
    let r = with_client call (Pidfile.pid file) in record r { signalled = sent ++ r.signalled }
after_start call file (sent, ok false) = record {
  signalled = sent;
  printed = [];
  outcome = ok minus_one;
}
after_start call file (sent, raised e) = record {
  signalled = sent;
  printed = [];
  outcome = raised (daemon_fault e);
}

-- `Command._run`, from what `maybe_start_daemon` gives and the pid file after it.
unfoldable pub run : (ℕ → Ran) → Option String → Called Bool → Ran
unfolding after_start
run call file started = after_start call file started

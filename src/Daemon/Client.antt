-- ===== src/Daemon/Client.antt =====
-- rx/daemon/client.py: the client of the daemon. `kill` is the operating system's answer to a
-- signal for each pid; a call that can send a signal gives the pids that were sent SIGTERM, too.
use rx.Base.{
  ℕ, String, Bool, true, false, Outcome, ok, raised, Option, none, some, List, [], ◌∷◌, ◌==◌,
  nat_eq, string_eq, if◌then◌else◌,
}
use rx.Base.Dict.{Dict, insert}
use rx.Base.Text.{show, int_of}
use rx.Proto.{
  Result, GrpcStatus, failed_precondition, RpcError, Reply, response, rpc_error, OpenPortRequest,
  Port,
}
use rx.Daemon.Errors.{
  DaemonError, daemon_unavailable, port_error, retry_error, index_error, value_error,
  process_lookup_error, permission_error, Kill, delivered, no_such_process, not_permitted,
}

-- `local.VERSION`
abbrev pub version : String
version = "0.1.0"

abbrev pub Metadata : Type 0
Metadata = List (String × String)

-- The metadata that `__init__` prepares, from the pid in the pid file.
unfoldable pub call_metadata : ℕ → Metadata
call_metadata pid = ("cv", version) ∷ ("pid", show pid) ∷ []

after_kill : ℕ → Kill → List ℕ × DaemonError
after_kill pid delivered = (pid ∷ [], retry_error)
after_kill pid no_such_process = ([], process_lookup_error)
after_kill pid not_permitted = ([], permission_error)

kill_daemon : (ℕ → Kill) → Option ℕ → List ℕ × DaemonError
unfolding after_kill
kill_daemon kill none = ([], value_error)
kill_daemon kill (some pid) = after_kill pid (kill pid)

refused : (ℕ → Kill) → Metadata → List ℕ × DaemonError
unfolding kill_daemon
refused kill [] = ([], index_error)
refused kill ((key, value) ∷ _) =
    if key == "pid" then kill_daemon kill (int_of value) else ([], retry_error)

-- The test on the status in `handle_rpc_error`.
handle_status : (ℕ → Kill) → RpcError → GrpcStatus → List ℕ × DaemonError
unfolding refused
handle_status kill e failed_precondition = refused kill e.initial_metadata
handle_status kill e _ = ([], daemon_unavailable e.details)

-- `handle_rpc_error`, which always raises: the signals that were sent, and the exception.
unfoldable pub handle_rpc_error : (ℕ → Kill) → RpcError → List ℕ × DaemonError
unfolding handle_status
handle_rpc_error kill e = handle_status kill e e.code

abbrev pub Called {ℓ} : Type ℓ → Type ℓ
Called A = List ℕ × Outcome DaemonError A

raise_handled {ℓ} : {A : Type ℓ} → List ℕ × DaemonError → Called A
raise_handled (sent, e) = (sent, raised e)

abbrev pub reported : Port → ℕ
reported p = if p.local_port == 0 then p.port else p.local_port

-- The loop of `info` over the ports of the response.
unfoldable pub info_loop : List Port → Dict ℕ ℕ → Dict ℕ ℕ
info_loop [] result = result
info_loop (p ∷ ps) result = info_loop ps (insert p.port (reported p) result)

-- `info`, from what the call of `GetPorts` gave.
unfoldable pub info : (ℕ → Kill) → Reply (List Port) → Called (Dict ℕ ℕ)
unfolding info_loop handle_rpc_error raise_handled
info kill (response ports) = ([], ok (info_loop ports []))
info kill (rpc_error e) = raise_handled (handle_rpc_error kill e)

-- What `open_port` and `close_port` make of the response: its code is tested.
unfoldable pub check_result : (ℕ → Kill) → Reply Result → Called (Unit {0})
unfolding handle_rpc_error raise_handled
check_result kill (response r) =
    if r.code == 0 then ([], ok tt) else ([], raised (port_error r.message))
check_result kill (rpc_error e) = raise_handled (handle_rpc_error kill e)

-- The request of `open_port`: a local port of `None` or 0 is left unset.
unfoldable pub open_request : ℕ → Option ℕ → OpenPortRequest
open_request port none = record { port = port; local_port = 0 }
open_request port (some local_port) = record { port = port; local_port = local_port }

-- `open_port` and `close_port`, over the stub's two methods.
unfoldable pub open_port :
    (ℕ → Kill) → (OpenPortRequest → Reply Result) → ℕ → Option ℕ → Called (Unit {0})
unfolding check_result open_request
open_port kill stub port local_port = check_result kill (stub (open_request port local_port))

unfoldable pub close_port : (ℕ → Kill) → (ℕ → Reply Result) → ℕ → Called (Unit {0})
unfolding check_result
close_port kill stub port = check_result kill (stub port)

running_of : Called (Dict ℕ ℕ) → Called Bool
running_of (sent, ok _) = (sent, ok true)
running_of (sent, raised (daemon_unavailable _)) = (sent, ok false)
running_of (sent, raised e) = (sent, raised e)

-- `is_running`: whether the pid file exists, and what a call of `info` would get.
unfoldable pub is_running : (ℕ → Kill) → Bool → Reply (List Port) → Called Bool
unfolding info running_of
is_running kill false reply = ([], ok false)
is_running kill true reply = running_of (info kill reply)

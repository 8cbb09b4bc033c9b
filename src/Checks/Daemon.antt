-- ===== src/Checks/Daemon.antt =====
-- The daemon and its client at concrete inputs.
use mathlib.Core.Quot
use rx.Base.{
  ℕ, zero, suc, ◌+◌, ◌≤◌, ◌<◌, ◌≡◌, ◌↔◌, refl, true, false, ◌&&◌, String, ok, none, some, List, [],
  ◌∷◌, map, arith, nat_eq, string_eq, ◌==◌, if◌then◌else◌,
}
use rx.Base.Dict.{lookup, insert, keys}
use rx.Base.Text.{int_of}
use rx.Proto.{response, rpc_error, RpcError, OpenPortRequest, no_error}
use rx.Daemon.Errors.{retry_error, Kill, delivered, no_such_process}
use rx.Daemon.Forwarder.{Bind, bound, Run, run_forever, inner, accepted, stop_called}
use rx.Daemon.Forwarder.Stopping.{run_forever-stop}
use rx.Daemon.Service.{Ports, local_port_of, open_port, close_port, get_ports}
use rx.Daemon.Service.Consistent.{IsConsistent}
use rx.Daemon.Service.Requests.{
  Request, open_req, close_req, serve_one, serve, serve-IsConsistent, opened, can_open,
  open_port_outcome,
}
use rx.Daemon.Service.Abstract.{replay}
use rx.Daemon.Service.Abstract.Refinement.{view, answers, answers-replay}
use rx.Daemon.Service.Unordered.{concerns, serve_on, answer_on, serve_on_swap}
use rx.Daemon.Service.Reporting.{itself, info-serve}
use rx.Daemon.Pidfile
use rx.Daemon.Pidfile.{pid, write, delete, probe}
use rx.Daemon.Client
use rx.Daemon.Client.{info, call_metadata, handle_rpc_error}
use rx.Daemon.Interceptors.{intercepted}
use rx.Daemon.Interceptors.Refusals.{stale_pid_kills}
use rx.Daemon.Manager.{
  Attempt, try_connect, next_of, again, attempt_loop, start_daemon, maybe_start_daemon,
}
use rx.Daemon.Manager.Starting.{attempt, start_daemon_connects}

abbrev answer : String
answer = "answer"

abbrev free : ℕ → Bind
free port = bound

abbrev addr : String
addr = "abc.trex.run-rx.com"

-- Port 8080 of the workspace, at the local port 80.
abbrev web : OpenPortRequest
web = record { port = 8080; local_port = 80 }

abbrev eighty : ℕ
eighty = 80

abbrev one_open : Ports
one_open = (80, opened addr web) ∷ []

abbrev none_open : Ports
none_open = []

open_web : open_port (ok addr) free web [] ≡ (ok no_error, one_open)
unfolding open_port local_port_of lookup insert nat_eq
open_web = refl

serve-IsConsistent_example :
    IsConsistent (serve (open_req (ok addr) free web ∷ close_req 80 ∷ []) [])
serve-IsConsistent_example =
    serve-IsConsistent (open_req (ok addr) free web ∷ close_req 80 ∷ []) []
      (record { nodup = tt; keyed = tt })

info-serve_example :
    info (λ n. delivered) (response (get_ports (serve (open_req (ok addr) free web ∷ []) [])))
    ≡ ([], ok (map itself (keys (serve (open_req (ok addr) free web ∷ []) []))))
info-serve_example = info-serve (open_req (ok addr) free web ∷ []) (λ n. delivered)

-- The remote port 8080 is not reported.
info_hides_remote :
    info (λ n. delivered) (response (get_ports (serve (open_req (ok addr) free web ∷ []) [])))
    ≡ ([], ok ((80, 80) ∷ []))
unfolding serve serve_one info get_ports local_port_of lookup insert nat_eq
info_hides_remote = refl

abbrev twice : List Request
twice = open_req (ok addr) free web ∷ close_req 80 ∷ open_req (ok addr) free web ∷ []

answers-replay_example :
    (answers twice none_open, view (serve twice none_open)) ≡ replay twice (view none_open)
answers-replay_example = answers-replay twice none_open

-- Opening the local port 80 and closing 81 are about different ports.
open_close_apart :
    (k : ℕ) → concerns (close_req 81) k && concerns (open_req (ok addr) free web) k ≡ false
unfolding local_port_of
open_close_apart k = ground arith

serve_on_swap_example :
    (serve_on (open_req (ok addr) free web) (serve_on (close_req 81) (Quot.mk none_open))
      ≡ serve_on (close_req 81) (serve_on (open_req (ok addr) free web) (Quot.mk none_open)))
    × (answer_on (open_req (ok addr) free web) (serve_on (close_req 81) (Quot.mk none_open))
        ≡ answer_on (open_req (ok addr) free web) (Quot.mk none_open))
serve_on_swap_example =
    serve_on_swap (open_req (ok addr) free web) (close_req 81) (Quot.mk none_open) open_close_apart

answers-twice : (answers twice none_open) ≡ (ok 0 ∷ ok 0 ∷ ok 112 ∷ [])
unfolding answers serve_one open_port close_port local_port_of lookup insert nat_eq
answers-twice = refl

open_port_outcome_example :
    (lookup eighty (open_port (ok addr) free web none_open).1 ≡ (
      if eighty == local_port_of web && can_open free web none_open
      then some (opened addr web)
      else lookup eighty none_open))
    × (((open_port (ok addr) free web none_open).0 ≡ ok no_error)
        ↔ (can_open free web none_open ≡ true))
open_port_outcome_example = open_port_outcome addr free web none_open eighty

abbrev serving : Run
serving = record { forwarder = opened addr web; thread = inner; handlers = 3 }

run_forever-stop_example :
    (run_forever (stop_called ∷ accepted ∷ accepted ∷ []) serving).handlers ≤ 3 + 1
run_forever-stop_example = run_forever-stop (accepted ∷ accepted ∷ []) serving

abbrev only_4711 : ℕ → Kill
only_4711 n = if n == 4711 then delivered else no_such_process

kills_4711 : only_4711 4711 ≡ delivered
unfolding nat_eq
kills_4711 = refl

stale_pid_kills_example :
    (e : RpcError) × (intercepted 4711 answer (call_metadata 12) ≡ ok (rpc_error e))
    × (handle_rpc_error only_4711 e ≡ (4711 ∷ [], retry_error))
stale_pid_kills_example = stale_pid_kills 4711 12 answer only_4711 (omega arith) kills_4711

-- No pid file at the first attempt, and an answer at every later one.
abbrev slow_start : ℕ → Attempt
slow_start i = record {
  pid_file = if i == 0 then none else some "4711\n";
  pid_file_exists = true;
  reply = response [];
}

abbrev answering : ℕ → Kill
answering n = delivered

first_fails : (k : ℕ) → k < 1 → next_of (attempt answering slow_start k) ≡ again
unfolding try_connect pid next_of nat_eq
first_fails zero h = refl
first_fails (suc k) h = absurd (omega arith)

second_connects : attempt answering slow_start 1 ≡ ok true
unfolding try_connect pid int_of nat_eq Client.is_running
second_connects = refl

start_daemon_connects_example : (start_daemon answering slow_start).1 ≡ ok true
start_daemon_connects_example =
    start_daemon_connects answering slow_start 1 (omega arith) first_fails second_connects

started : (maybe_start_daemon answering none slow_start (response [])).1 ≡ ok true
unfolding maybe_start_daemon Pidfile.is_running pid start_daemon attempt_loop next_of try_connect
    int_of nat_eq Client.is_running
started = refl

-- ===== src/Checks/Worker.antt =====
-- The worker's side of a command, and one client connection, at concrete inputs.
use rx.Base.{
  ◌↔◌, ℕ, ◌≡◌, refl, String, true, false, ok, none, some, List, [], ◌∷◌, ◌++◌, arith, ◌||◌,
  contains, Distinct, string_eq, nat_eq, is_some,
}
use rx.Base.Text.{split}
use rx.Base.Paths.{path_text, path_of}
use rx.Base.Dict.{Dict, lookup}
use rx.Proto.{no_error, ImageProgress, RpcError, unavailable}
use rx.Client.Worker.{forward_to_port}
use rx.Daemon.Connection.Answers.{
  Response, handled, put_answers, request_end, handle_request, Cut, handler_after,
  handle_request_forwards,
}
use rx.Daemon.Connection as ClientSocket
use rx.Daemon.Connection.{
  Connection, started, Reach, here, next, recv_test, recv_frame, returned, draining, forwarding,
  at_test,
}
use rx.Daemon.Connection.Order.{InOrder, Reach-InOrder}
use rx.Daemon.Connection.Losses.{cons-not_nil, response_garbled}
use rx.Daemon.Connection.Returning.{Returns}
use rx.Daemon.Connection.Doomed.{IsDoomed, Returns-IsDoomed}
use rx.Daemon.Connection.Stuck.{response_stuck}
use rx.Worker.Executor.{Sink, took, blocked, complete, write, ExecResponse, Progress, run}
use rx.Worker.Executor.Writing.{write_complete}
use rx.Worker.Executor.Responses.{all_out, all_files, run_collects}
use rx.Worker.Stdin
use rx.Worker.Stdin.{Stdin, entered, woken, Steps, loop_test, select_event, read_some, waiting}
use rx.Worker.Stdin.Order.{IsInOrder, Steps-IsInOrder}
use rx.Worker.Stdin.Waiting.{next_never_returns}
use rx.Worker.Rsync.{RsyncClient, is_local, host_of, cmd_args, to_remote}
use rx.Shared.Progress.{show_all}
use rx.Shared.Progress.Bars.{announces, HasTotal, show_all_bars}

abbrev frame : List ℕ
frame = 42 ∷ []

-- One frame has been received and is queued.
abbrev received_one : Connection ℕ
received_one = record (started ℕ) { received = frame ∷ []; request_queue = frame ∷ [] }

one_received : Reach received_one
one_received =
    next (next here (recv_test refl refl))
      (recv_frame frame refl (cons-not_nil 42 []) (omega arith))

Reach-InOrder_example : InOrder received_one
Reach-InOrder_example = Reach-InOrder one_received

-- `handle` can still return from there.
Returns-IsDoomed_example : Returns received_one ↔ ¬ IsDoomed received_one
Returns-IsDoomed_example = Returns-IsDoomed received_one one_received

response_garbled_example :
    (c : Connection ℕ) × Reach c
    × (c.handler ≡ returned)
    × (c.answered ≡ (1 ∷ 2 ∷ []) ∷ [])
    × (c.response_queue ≡ [])
    × (c.sent ≡ 1 ∷ 1 ∷ [])
response_garbled_example = response_garbled 42 1 2

response_stuck_example :
    (c : Connection ℕ) × Reach c
    × (c.response_queue ≡ frame ∷ [])
    × ((d : Connection ℕ) → ClientSocket.Steps c d → (d.sent ≡ []) × (d.handler ≡ draining))
response_stuck_example = response_stuck 42 frame (cons-not_nil 42 [])

-- Three bytes, taken two and one, with a blocked call between.
abbrev buffer : List ℕ
buffer = 104 ∷ 105 ∷ 10 ∷ []

abbrev in_parts : List Sink
in_parts = took 2 ∷ blocked 0 ∷ took 1 ∷ []

write_complete_example : write in_parts buffer ≡ complete buffer
write_complete_example = write_complete in_parts buffer (refl, tt) tt (omega arith)

abbrev said : ExecResponse
said = record {
  result = no_error;
  execution_id = "e1";
  stdout = buffer;
  stderr = [];
  output_files = "out.txt" ∷ "out.txt" ∷ [];
  exit_code = 0;
}

abbrev nothing_yet : Progress
nothing_yet = record { execution_id = none; out = []; err = []; outputs = [] }

run_collects_example :
    ((run (said ∷ said ∷ []) nothing_yet).1.out ≡ nothing_yet.out ++ all_out (said ∷ said ∷ []))
    × (contains (run (said ∷ said ∷ []) nothing_yet).1.outputs "out.txt" ≡ (
        contains nothing_yet.outputs "out.txt"
        || contains (all_files (said ∷ said ∷ [])) "out.txt"))
    × Distinct (run (said ∷ said ∷ []) nothing_yet).1.outputs
run_collects_example = run_collects (said ∷ said ∷ []) nothing_yet "out.txt" tt

abbrev layer : ImageProgress
layer = record { id = "sha"; current = 3; total = 10 }

show_all_bars_example :
    (is_some (lookup "sha" (show_all (layer ∷ []) [])) ≡ announces (layer ∷ []) "sha")
    × HasTotal (lookup "sha" (show_all (layer ∷ []) []))
show_all_bars_example = show_all_bars (layer ∷ []) "sha"

-- The configurations of test_rsync.py.
abbrev remote_cfg : Dict String String
remote_cfg =
    ("daemon_module", "f1d1df3b")
    ∷ ("worker_addr", "abc123.trex.run-rx.com")
    ∷ ("workspace_id", "f1d1df3b")
    ∷ []

abbrev client : RsyncClient
client = record {
  sync_dir = record { absolute = true; parts = "path" ∷ "to" ∷ "proj" ∷ [] };
  cfg = remote_cfg;
  rsync_path = "/usr/bin/rsync";
  daemon_addr = "abc123.trex.run-rx.com";
}

to_remote_test :
    to_remote false client
    ≡ ok (
        "/usr/bin/rsync" ∷ "--archive" ∷ "--compress" ∷ "--delete" ∷ "--inplace" ∷ "/path/to/proj/"
        ∷ "abc123.trex.run-rx.com::f1d1df3b" ∷ [])
unfolding to_remote cmd_args lookup string_eq path_text path_of nat_eq
to_remote_test = refl

local_host : host_of "localhost:50051" ≡ "localhost"
unfolding host_of is_local string_eq split nat_eq
local_host = refl

abbrev typed_one : Stdin ℕ
typed_one = record (entered 42) { stdin_buffer = 42 ∷ 7 ∷ []; typed = 7 ∷ [] }

one_typed : Steps (entered 42) typed_one
unfolding entered woken
one_typed =
    Stdin.next (Stdin.next (Stdin.next Stdin.here (loop_test refl refl)) (select_event refl refl))
      (read_some 7 refl)

Steps-IsInOrder_example : IsInOrder 42 typed_one
Steps-IsInOrder_example = Steps-IsInOrder 42 one_typed

next_never_returns_example :
    (s : Stdin ℕ) × Steps (entered 42) s
    × ((t : Stdin ℕ) → Steps s t → (t.consumer ≡ waiting) × (t.running ≡ false))
next_never_returns_example = next_never_returns 42

abbrev only_result : Response
only_result = (some no_error, [])

abbrev in_loop : Connection ℕ
in_loop = record received_one { handler = forwarding; puller = at_test }

-- The frame after the response without one is not forwarded.
frame_is_dropped :
    handle_request ((none, frame) ∷ only_result ∷ (none, frame) ∷ []) none ≡ (frame ∷ [], handled)
unfolding handle_request forward_to_port put_answers request_end nat_eq
frame_is_dropped = refl

abbrev lost_worker : RpcError
lost_worker = record { code = unavailable; details = ""; initial_metadata = [] }

handle_request_forwards_example :
    Cut ((none, frame) ∷ []) (some lost_worker)
    × ((d : Connection ℕ) × ClientSocket.Steps in_loop d
        × (d.answered
            ≡ in_loop.answered ++ (handle_request ((none, frame) ∷ []) (some lost_worker)).0)
        × (d.handler ≡ handler_after (handle_request ((none, frame) ∷ []) (some lost_worker)).1))
handle_request_forwards_example =
    handle_request_forwards ((none, frame) ∷ []) (some lost_worker) in_loop refl

-- ===== src/Daemon/Forwarder/Stopping.antt =====
-- port_forwarder.py: what the thread of `run_forever` still does after `stop`.
use rx.Base.{◌+◌, ◌≤◌, ◌≡◌, refl, true, ◌⊎◌, List, [], ◌∷◌, arith}
use rx.Daemon.Forwarder.{
  Event, stop_called, Thread, returned, died, Run, stop, step_thread, run_forever,
}

abbrev IsOver : Thread → Type 0
IsOver t = (t ≡ returned) ⊎ (t ≡ died)

-- A thread that has ended handles nothing, whatever happens.
run_forever_over :
    (es : List Event) (r : Run) → IsOver r.thread → (run_forever es r).handlers ≡ r.handlers
unfolding run_forever step_thread
run_forever_over [] r h = ground arith
run_forever_over (e ∷ es) r h = ground (arith, run_forever_over es (step_thread r.thread e r))

-- A forwarder that is done takes at most one more connection.
run_forever_done :
    (es : List Event) (r : Run)
    → r.forwarder.done ≡ true
    → (run_forever es r).handlers ≤ r.handlers + 1
unfolding run_forever step_thread
run_forever_done [] r h = omega arith
run_forever_done (e ∷ es) r h = ground (
  arith,
  run_forever_done es (step_thread r.thread e r),
  run_forever_over es (step_thread r.thread e r),
)

-- Once `stop` has been called, the thread accepts at most one more connection (the one whose
-- `accept` was under way), whatever happens afterwards.
pub run_forever-stop :
    (es : List Event) (r : Run) → (run_forever (stop_called ∷ es) r).handlers ≤ r.handlers + 1
unfolding run_forever step_thread
run_forever-stop es r = run_forever_done es (record r { forwarder = stop r.forwarder }) refl

-- ===== src/Worker/Executor.antt =====
-- rx/worker/executor.py: writing the output of a command, and the loop over its responses.
pub mod Writing
pub mod Responses
use rx.Base.{
  ℕ, ◌+◌, String, Bool, true, false, Option, none, some, List, [], ◌∷◌, ◌++◌, contains, string_eq,
  ◌==◌, length, if◌then◌else◌, Outcome, ok, raised,
}
use rx.Base.Lists.{take, drop}
use rx.Proto.{Result}

-- What a call of `sink.write` on the rest of the buffer does: it takes this many bytes, or raises
-- `BlockingIOError` after some, or another error of the kind; with EAGAIN the loop goes on.
pub data Sink : Type 0 where
  took blocked : ℕ → Sink
  broken : Sink

-- How `write` ends, with the bytes that have reached the sink. While the sink's answers last, a
-- write that has not ended is `unfinished`.
pub data Written {ℓ} (A : Type ℓ) : Type ℓ where
  complete failed unfinished : List A → Written A

module _ {ℓ} {A : Type ℓ} where
  -- The loop `while written < len(buf)`, over what is left of the buffer.
  unfoldable pub write_loop : List Sink → List A → List A → Written A
  write_loop answers [] sunk = complete sunk
  write_loop [] (b ∷ buf) sunk = unfinished sunk
  write_loop (took n ∷ answers) (b ∷ buf) sunk =
      write_loop answers (drop n (b ∷ buf)) (sunk ++ take n (b ∷ buf))
  write_loop (blocked n ∷ answers) (b ∷ buf) sunk =
      write_loop answers (b ∷ buf) (sunk ++ take n (b ∷ buf))
  write_loop (broken ∷ answers) (b ∷ buf) sunk = failed sunk

  -- `write`. An empty buffer returns before the loop, which is what the loop does with it.
  unfoldable pub write : List Sink → List A → Written A
  unfolding write_loop
  write answers buf = write_loop answers buf []

-- An `ExecResponse`. Bytes are numbers; an unset text is "".
pub record ExecResponse : Type 0 where
  pub result : Result
  pub execution_id : String
  pub stdout : List ℕ
  pub stderr : List ℕ
  pub output_files : List String
  pub exit_code : ℕ

-- What `run` changes: its own `execution_id`, the two streams, and the handler's set of paths
-- (in the order in which they were added).
pub record Progress : Type 0 where
  pub execution_id : Option String
  pub out : List ℕ
  pub err : List ℕ
  pub outputs : List String

-- `self._current_outputs.add` (rx/client/output_handler.py)
unfoldable pub add_output : List String → String → List String
add_output outputs path = if contains outputs path then outputs else outputs ++ (path ∷ [])

-- `OutputHandler.handle`
unfoldable pub handle : List String → List String → List String
handle [] outputs = outputs
handle (path ∷ paths) outputs = handle paths (add_output outputs path)

-- The body of the loop in `run`, where the streams take all that is written.
unfoldable pub take_response : ExecResponse → Progress → Progress
take_response r p = record {
  execution_id = if r.execution_id == "" then p.execution_id else some r.execution_id;
  out = p.out ++ r.stdout;
  err = p.err ++ r.stderr;
  outputs = handle r.output_files p.outputs;
}

unfoldable pub run_loop :
    List ExecResponse → Option ExecResponse → Progress → Option ExecResponse × Progress
run_loop [] last p = (last, p)
run_loop (r ∷ rs) last p = run_loop rs (some r) (take_response r p)

-- `run`: the last response, or `none` where the assertion fails, and what was changed.
unfoldable pub run : List ExecResponse → Progress → Option ExecResponse × Progress
run responses p = run_loop responses none p

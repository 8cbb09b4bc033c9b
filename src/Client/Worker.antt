-- ===== src/Client/Worker.antt =====
-- rx/client/worker_client.py. What is written to the terminal is not modelled. The outcomes of the
-- remote calls and of rsync are parameters; `Action` lists what is done to the worker, in order.
pub mod Calls
pub mod Directory
pub mod Running
pub mod Setup
use rx.Base.{
  ℕ, String, Bool, true, false, not, Outcome, ok, raised, Option, none, some, List, [], ◌∷◌, ◌++◌,
  ◌||◌, ◌&&◌, ◌==◌, nat_eq, string_eq, if◌then◌else◌, is_nil, is_some,
}
use rx.Base.Integers.{ℤ, pos, minus_one, is_zero}
use rx.Base.Paths.{FilePath, path_text, strip_prefix}
use rx.Proto.{
  Result, result_of, RpcError, Reply, response, rpc_error, GrpcStatus, unavailable, Stream,
}
use rx.Proto.StatusCode
use rx.Shared.Progress.{result_after}
use rx.Worker.Executor.{ExecResponse, Progress}

pub data WorkerError : Type 0 where
  -- `WorkerError` with its code, and its subclass `RsyncError`.
  worker_error : ℤ → WorkerError
  rsync_error : WorkerError
  -- The errors that are no `WorkerError`.
  relocation disconnection assertion_error key_error value_error : WorkerError
  rpc : RpcError → WorkerError

pub data Action : Type 0 where
  setup_rsync sync_to sync_from init_container install_deps : Action
  executed : List String → Option String → Action
  killed : String → Action

abbrev pub Did {ℓ} : Type ℓ → Type ℓ
Did A = List Action × Outcome WorkerError A

infixl 5 ◌>>◌
-- One part after another; the second is not started if the first raises.
abbrev pub ◌>>◌ {ℓ} : {A : Type ℓ} → Did (Unit {0}) → Did A → Did A
(done, ok _) >> (more, r) = (done ++ more, r)
(done, raised e) >> rest = (done, raised e)

-- `os.path.commonpath` of two absolute paths without "." and "..", by their parts.
unfoldable pub common_path : List String → List String → List String
common_path [] ws = []
common_path (v ∷ vs) [] = []
common_path (v ∷ vs) (w ∷ ws) = let rest = common_path vs ws in if v == w then v ∷ rest else []

same_parts : List String → List String → Bool
same_parts [] [] = true
same_parts [] (_ ∷ _) = false
same_parts (_ ∷ _) [] = false
same_parts (v ∷ vs) (w ∷ ws) = v == w && same_parts vs ws

-- `is_subdir`
unfoldable pub is_subdir : List String → List String → Bool
unfolding same_parts common_path
is_subdir parent child = same_parts parent (common_path parent child)

-- `relative_to`, which raises `ValueError` outside the directory.
unfoldable pub relative_to : List String → List String → Outcome WorkerError (List String)
relative_to child parent = elim (strip_prefix parent child) [
  | none ↦ raised value_error
  | some rest ↦ ok rest
]

relative : Outcome WorkerError (List String) → Outcome WorkerError (Option String)
relative (ok rest) = ok (some (path_text (record { absolute = false; parts = rest })))
relative (raised e) = raised e

-- The directory that `exec` asks for: inside the root, the working directory relative to it, and
-- else the value of `--cwd`.
unfoldable pub exec_cwd :
    List String → List String → Option String → Outcome WorkerError (Option String)
unfolding relative
exec_cwd rxroot cwd flag =
    if is_subdir rxroot cwd then relative (relative_to cwd rxroot) else ok flag

-- `maybe_kill`
unfoldable pub maybe_kill : Option String → List Action
maybe_kill none = []
maybe_kill (some id) = killed id ∷ []

-- How `runner.run` ends.
pub data RunEnd : Type 0 where
  finished : ExecResponse → RunEnd
  rpc_failed interrupted : RunEnd
  runtime_error : String → RunEnd

-- `OutputHandler.write_outputs` (rx/client/output_handler.py)
unfoldable pub write_outputs : List String → List Action
write_outputs [] = []
write_outputs (_ ∷ _) = sync_from ∷ []

-- The tests of `exec` on the last response.
after_response : Bool → List String → ExecResponse → Did ℤ
unfolding write_outputs
after_response should_sync outputs r =
    if r.result.code == StatusCode.subscription_required
    then ([], ok (pos 0))
    else if r.result.code == StatusCode.moved || r.result.code == StatusCode.eagain
    then ([], raised relocation)
    else if not (r.result.code == StatusCode.okay)
    then ([], ok (pos r.result.code))
    else (if should_sync then write_outputs outputs else [], ok (pos r.exit_code))

after_run : Bool → Progress → RunEnd → Did ℤ
unfolding after_response maybe_kill
after_run should_sync p (finished r) = after_response should_sync p.outputs r
after_run should_sync p rpc_failed = ([], ok (pos 1))
after_run should_sync p interrupted = (maybe_kill p.execution_id, ok (pos 130))
after_run should_sync p (runtime_error message) =
    if message == "cannot release un-acquired lock"
    then (maybe_kill p.execution_id, ok (pos 130))
    else ([], ok minus_one)

-- The first part of `exec`: rsync's exit status must be 0.
sync_first : Bool → ℤ → Did (Unit {0})
sync_first false status = ([], ok tt)
sync_first true status = (sync_to ∷ [], if is_zero status then ok tt else raised rsync_error)

execute : List String → Outcome WorkerError (Option String) → Did ℤ → Did ℤ
execute argv (raised e) after = ([], raised e)
execute argv (ok cwd) (done, r) = (executed argv cwd ∷ done, r)

-- `exec`
unfoldable pub exec :
    Bool → ℤ → Outcome WorkerError (Option String) → List String → Progress → RunEnd → Did ℤ
unfolding after_run sync_first execute
exec should_sync status cwd argv p end =
    sync_first should_sync status >> execute argv cwd (after_run should_sync p end)

-- `init`. The response to `SetupRsync`, rsync's status, whether `errno.errorcode` has that status,
-- the codes of the stream of `Init` with its end, then `_install_deps`.
check_setup : Option Result → Did (Unit {0})
check_setup none = (setup_rsync ∷ [], ok tt)
check_setup (some r) = (
  setup_rsync ∷ [],
  if r.code == StatusCode.okay then ok tt else raised (worker_error (pos r.code)),
)

check_sync : (ℤ → Bool) → ℤ → Did (Unit {0})
check_sync has_name status = (
  sync_to ∷ [],
  if is_zero status
      then ok tt
      else if has_name status
      then raised rsync_error
      else raised key_error,
)

-- `get_progress` raises at the first code that is not OK.
init_codes : List Result → Outcome WorkerError (Unit {0})
init_codes [] = ok tt
init_codes (r ∷ rs) =
    let rest = init_codes rs in
    if r.code == StatusCode.okay then rest else raised (worker_error (pos r.code))

-- The result of the progress bars.
check_bars : Option Result → Outcome WorkerError (Unit {0})
check_bars none = ok tt
check_bars (some r) =
    if r.code == StatusCode.okay
    then ok tt
    else if r.code == StatusCode.moved
    then raised relocation
    else raised (worker_error (pos r.code))

init_stream : Stream Result → Did (Unit {0})
unfolding init_codes check_bars
init_stream s = elim (init_codes s.items) [
  | raised e ↦ (init_container ∷ [], raised e)
  | ok _ ↦ (init_container ∷ [], check_bars (result_after s.failure))
]

unfoldable pub last_of {ℓ} : {A : Type ℓ} → List A → Option A
last_of [] = none
last_of (x ∷ []) = some x
last_of (x ∷ y ∷ xs) = last_of (y ∷ xs)

deps_result : Option Result → Outcome WorkerError (Unit {0})
deps_result none = raised assertion_error
deps_result (some r) =
    if r.code == StatusCode.moved
    then raised relocation
    else if r.code == 0
    then ok tt
    else raised (worker_error (pos r.code))

-- `_install_deps`, over the results of its responses.
unfoldable pub deps : Bool → Stream Result → Did (Unit {0})
unfolding deps_result last_of
deps should_sync s = elim s.failure [
  | some e ↦ (install_deps ∷ [], raised (worker_error minus_one))
  | none ↦
      (install_deps ∷ [], deps_result (last_of s.items))
      >> (if should_sync then sync_from ∷ [] else [], ok tt)
]

unfoldable pub init :
    Bool → Option Result → (ℤ → Bool) → ℤ → Stream Result → Stream Result → Did (Unit {0})
unfolding check_setup check_sync init_stream
init should_sync setup has_name status containers installed =
    (if should_sync then check_setup setup >> check_sync has_name status else ([], ok tt))
    >> (init_stream containers >> deps should_sync installed)

-- `forward_to_port`: the frames that it yields, and how it ends. A response is its result, if set,
-- and its frame.
unfoldable pub forward_to_port :
    List (Option Result × List ℕ) → Option RpcError → List (List ℕ) × Outcome WorkerError (Unit {0})
forward_to_port [] none = ([] ∷ [], ok tt)
forward_to_port [] (some e) =
    ([], elim e.code [ unavailable ↦ raised disconnection | _ ↦ raised (worker_error minus_one) ])
forward_to_port ((r, frame) ∷ rs) failure =
    let (frames, end) = forward_to_port rs failure in
    if is_some r && not ((result_of r).code == 0)
    then ([], raised (worker_error minus_one))
    else (frame ∷ frames, end)

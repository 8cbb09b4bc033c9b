-- ===== src/Client/Trex.antt =====
-- rx/client/trex_client.py. The outcomes of the remote calls are parameters; what is printed is not
-- modelled. The state that the client changes is the file of the remote configuration.
pub mod Payment
pub mod Workspace
use rx.Base.{
  ℕ, String, Bool, true, false, not, Outcome, ok, raised, Option, none, some, List, [], ◌∷◌, ◌==◌,
  nat_eq, string_eq, if◌then◌else◌, ltb, ◌>>=◌, ◌>>◌,
}
use rx.Base.Integers.{ℤ, pos, minus_one}
use rx.Proto.{Result, RpcError, Reply, response, rpc_error, Stream}
use rx.Proto.StatusCode
use rx.Shared.Progress.{result_after}
use rx.Client.Config.Values.{Value, text, Fields}
use rx.Client.Login.{LoginError}
use rx.Client.Worker.{WorkerError, worker_error, rsync_error}
use rx.Client.Config.Store.{Body, done, assign, with_config}

-- The code of a `TrexError`: a number, or, where the program passes one, the whole `Result`.
pub data Code : Type 0 where
  number : ℤ → Code
  whole : Result → Code

pub data TrexFault : Type 0 where
  trex_error : String → Code → TrexFault
  timeout_error : TrexFault
  assertion_error : TrexFault
  mismatched_emails : TrexFault
  -- What setting up the worker raises that is no `WorkerError`.
  uncaught : WorkerError → TrexFault
  login_fault : LoginError → TrexFault
  rpc : RpcError → TrexFault

abbrev pub Did {ℓ} : Type ℓ → Type ℓ
Did A = Outcome TrexFault A

-- A response whose code is not 0 is raised with its code.
unfoldable pub checked : Result → Did (Unit {0})
checked r = if r.code == 0 then ok tt else raised (trex_error r.message (number (pos r.code)))

-- `GetWorkspaceInfoResponse`, without the history.
pub record Info : Type 0 where
  pub result : Result
  pub state : String

-- `get_info`
unfoldable pub get_info : Reply Info → Did Info
unfolding checked
get_info (rpc_error e) = raised (trex_error e.details (number minus_one))
get_info (response r) = do checked r.result; ok r

pub record InitResponse : Type 0 where
  pub result : Result
  pub workspace_id : String
  pub worker_addr : String
  pub daemon_module : String

-- The assignments of `init` to the remote configuration.
unfoldable pub remote_body : InitResponse → Body
remote_body r =
    assign "workspace_id" (text r.workspace_id) (
      assign "worker_addr" (text r.worker_addr)
        (assign "daemon_module" (text r.daemon_module) done))

-- The `except` clause takes a `WorkerError`, and no relocation or other error.
worker_failed : WorkerError → TrexFault
worker_failed (worker_error code) = trex_error "Error setting up worker" (number minus_one)
worker_failed rsync_error = trex_error "Error setting up worker" (number minus_one)
worker_failed e = uncaught e

-- Setting up the worker, from how its login and its `init` end.
after_worker : String → Outcome LoginError (Unit {0}) → Outcome WorkerError (Unit {0}) → Did String
unfolding worker_failed
after_worker workspace_id (raised e) worker = raised (login_fault e)
after_worker workspace_id (ok _) (ok _) = ok workspace_id
after_worker workspace_id (ok _) (raised e) = raised (worker_failed e)

init_error : Result → TrexFault
init_error r =
    if r.code == StatusCode.subscription_required
    then trex_error "a subscription is needed" (number (pos r.code))
    else trex_error r.message (number minus_one)

-- `init`, from the local configuration's environment (or its `ConfigError`), the reply, and how the
-- login for the worker and its own `init` end: the remote file after it, and the result.
unfoldable pub init :
    Outcome String (Unit {0})
    → Reply InitResponse
    → Outcome LoginError (Unit {0})
    → Outcome WorkerError (Unit {0})
    → Option Fields
    → Option Fields × Did String
unfolding remote_body after_worker init_error
init (raised message) reply login worker file =
    (file, raised (trex_error message (number minus_one)))
init (ok _) (rpc_error e) login worker file =
    (file, raised (trex_error e.details (number minus_one)))
init (ok _) (response r) login worker file =
    if r.result.code == 0
    then (with_config (remote_body r) file, after_worker r.workspace_id login worker)
    else (file, raised (init_error r.result))

-- An `UnfreezeResponse`.
pub record Status : Type 0 where
  pub result : Result
  pub worker_addr : String

last_status : List Status → Option Status
last_status [] = none
last_status (s ∷ []) = some s
last_status (s ∷ t ∷ rest) = last_status (t ∷ rest)

unfrozen : Option Status → Option Fields → Option Fields × Did Result
unfrozen none file = (file, raised assertion_error)
unfrozen (some s) file = (
  if s.result.code == StatusCode.okay
      then with_config (assign "worker_addr" (text s.worker_addr) done) file
      else file,
  ok s.result,
)

-- `unfreeze`. Nothing catches a failure of the stream of statuses.
unfoldable pub unfreeze : Stream Status → Option Fields → Option Fields × Did Result
unfolding unfrozen last_status
unfreeze statuses file = elim statuses.failure [
  | none ↦ unfrozen (last_status statuses.items) file
  | some e ↦ (file, raised (rpc e))
]

-- `get_progress` of `commit` and `stop`: the first code that is not 0 is raised.
unfoldable pub progress : List Result → Did (Unit {0})
unfolding checked
progress [] = ok tt
progress (r ∷ rs) = do checked r; progress rs

-- The result of the progress bars, whose code is tested where there is one.
bars : String → Option Result → Did (Unit {0})
bars message none = ok tt
bars message (some r) = if r.code == 0 then ok tt else raised (trex_error message (whole r))

streamed : String → Stream Result → Did (Unit {0})
unfolding progress bars
streamed message s = do progress s.items; bars message (result_after s.failure)

-- `commit`, from the stream of `CommitStream` and the result of `CommitFinish`.
unfoldable pub commit : Stream Result → Result → Did (Unit {0})
unfolding streamed
commit s finish = do
  streamed "Error saving workspace" s
  if finish.code == 0 then ok tt else raised (trex_error finish.message (whole finish))

-- `stop`
unfoldable pub stop : Stream Result → Did (Unit {0})
unfolding streamed
stop s = streamed "Error stopping worker" s

-- `unsubscribe` and `set_acls`, from the result of the call.
unfoldable pub unsubscribe : Result → Did (Unit {0})
unfolding checked
unsubscribe r = checked r

unfoldable pub set_acls : Result → Did (Unit {0})
unfolding checked
set_acls r = checked r

-- How `_wait_for_payment` stands after some polls: it has returned, it has raised, or it is still
-- waiting.
pub data Waiting : Type 0 where
  paid waiting : Waiting
  stopped : TrexFault → Waiting

-- One round of its loop, with the time at its test and what `CheckSubscription` gives.
pub record Poll : Type 0 where
  pub now : ℕ
  pub reply : Reply Result

wait_reply : Reply Result → Waiting → Waiting
wait_reply (rpc_error e) later = stopped (trex_error e.details (number minus_one))
wait_reply (response r) later =
    if r.code == StatusCode.okay
    then paid
    else if r.code == StatusCode.subscription_required
    then later
    else stopped (trex_error r.message (number (pos r.code)))

unfoldable pub wait_for_payment : ℕ → List Poll → Waiting
unfolding wait_reply
wait_for_payment end [] = waiting
wait_for_payment end (p ∷ ps) =
    let later = wait_for_payment end ps in
    if ltb p.now end then wait_reply p.reply later else stopped timeout_error

-- `_create_username`, for the name that the user chose.
unfoldable pub create_username : String → Reply Result → Did String
unfolding checked
create_username username (rpc_error e) = raised (trex_error e.details (number minus_one))
create_username username (response r) =
    if r.code == StatusCode.invalid
    then raised (trex_error r.message (number (pos StatusCode.invalid)))
    else do checked r; ok username

-- `_get_username`: the name that rx knows, or a new one.
unfoldable pub get_username : Reply String → String → Reply Result → Did String
unfolding create_username
get_username (rpc_error e) chosen reply = raised (trex_error e.details (number minus_one))
get_username (response known) chosen reply =
    if known == "" then create_username chosen reply else ok known

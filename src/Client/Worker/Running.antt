-- ===== src/Client/Worker/Running.antt =====
-- worker_client.py: what running a command does to the worker.
use rx.Base.{
  ◌≡◌, String, Bool, true, false, not, Outcome, ok, raised, Option, List, [], ◌∷◌, ◌&&◌, arith,
  ◌==◌, nat_eq, string_eq, is_nil,
}
use rx.Base.Integers.{ℤ, pos, is_zero}
use rx.Worker.Executor.{ExecResponse, Progress}
use rx.Client.Worker.{
  WorkerError, rsync_error, Action, setup_rsync, sync_to, sync_from, init_container, install_deps,
  executed, killed, maybe_kill, RunEnd, finished, interrupted, exec,
}

abbrev pub syncs_back : List Action → Bool
syncs_back [] = false
syncs_back (sync_from ∷ actions) = true
syncs_back (setup_rsync ∷ actions) = syncs_back actions
syncs_back (sync_to ∷ actions) = syncs_back actions
syncs_back (init_container ∷ actions) = syncs_back actions
syncs_back (install_deps ∷ actions) = syncs_back actions
syncs_back (executed argv cwd ∷ actions) = syncs_back actions
syncs_back (killed id ∷ actions) = syncs_back actions

-- If copying the files to the worker fails, nothing is executed there.
pub exec_unsynced :
    (status : ℤ) (cwd : Outcome WorkerError (Option String)) (argv : List String) (p : Progress)
    (end : RunEnd)
    → is_zero status ≡ false
    → exec true status cwd argv p end ≡ (sync_to ∷ [], raised rsync_error)
unfolding exec
exec_unsynced status cwd argv p end h = rw h

-- An interrupted command is killed on the worker if its id is known, and the exit code is 130.
pub exec_interrupted :
    (status : ℤ) (cwd : Option String) (argv : List String) (p : Progress)
    → is_zero status ≡ true
    → exec true status (ok cwd) argv p interrupted
      ≡ (sync_to ∷ executed argv cwd ∷ maybe_kill p.execution_id, ok (pos 130))
unfolding exec
exec_interrupted status cwd argv p h = rw h

pub syncs_back-exec :
    (should_sync : Bool) (status : ℤ) (cwd : Option String) (argv : List String) (p : Progress)
    (r : ExecResponse)
    → is_zero status ≡ true
    → syncs_back (exec should_sync status (ok cwd) argv p (finished r)).0
      ≡ (should_sync && (r.result.code == 0 && not (is_nil p.outputs)))
unfolding exec
syncs_back-exec true status cwd argv p r h = rw h (ground arith)
syncs_back-exec false status cwd argv p r h = ground arith

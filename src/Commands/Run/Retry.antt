-- ===== src/Commands/Run/Retry.antt =====
-- runner.py with worker_client.py and trex_client.py: a run whose workspace is not reachable.
use rx.Base.{
  ◌≡◌, refl, String, true, false, Outcome, ok, raised, Option, some, List, [], ◌∷◌, arith, ◌==◌,
  nat_eq, string_eq, if◌then◌else◌, ◌⊎◌, inl,
}
use rx.Base.Integers.{ℤ, pos, is_zero}
use rx.Proto.{Result, response}
use rx.Proto.StatusCode
use rx.Client.Config.Values.{Value, Fields, find, text}
use rx.Client.Config.Roots.{UpPath}
use rx.Client.Config.Local.{LocalConfig}
use rx.Client.Config.Store.{assign, done, open_config, get_item}
use rx.Client.Config.Store.Commit.{entries, assigned}
use rx.Worker.Executor.{Progress}
use rx.Client.Worker.{WorkerError, rsync_error, RunEnd, exec}
use rx.Client.Worker.Running.{exec_unsynced}
use rx.Client.Trex.{TrexFault, Info, Status, get_info, checked, unfreeze}
use rx.Client.Trex.Workspace.{ending_with, unfreeze_file}
use rx.Commands.Run.{
  Scheduler, ExecEnd, exec_end, command_of, after_unfreeze, maybe_unfreeze, try_exec, run_command,
  setting_of, remote_setting,
}

-- `client.exec` of a workspace that syncs, as `_try_exec` sees it.
abbrev pub executes :
    ℤ → Outcome WorkerError (Option String) → Progress → RunEnd → List String → ExecEnd
executes status cwd p end argv = exec_end (exec true status cwd argv p end).1

after_unfreeze_ok :
    (u : Option Fields × Outcome TrexFault Result) (r : Result)
    → u.1 ≡ ok r
    → after_unfreeze u ≡ (u.0, ok (pos r.code))
unfolding after_unfreeze
after_unfreeze_ok (file, o) r h = rw h

-- The rest of the command once the remote file and the result of `unfreeze` are known.
after_unfreeze_parts :
    (before : List Status) (s : Status) (file : Option Fields) (j : String)
    → (find j (entries (after_unfreeze (unfreeze (ending_with before s) file)).0) ≡ (
        if s.result.code == StatusCode.okay
        then assigned j (assign "worker_addr" (text s.worker_addr) done) (find j (entries file))
        else find j (entries file)))
      × ((after_unfreeze (unfreeze (ending_with before s) file)).1 ≡ ok (pos s.result.code))
after_unfreeze_parts before s file j =
    let (e, r) = unfreeze_file before s file j in
    rw (after_unfreeze_ok (unfreeze (ending_with before s) file) s.result r) (e, refl)

-- A setting that the file has.
remote_setting_ok :
    (path : UpPath) (key : String) (d : Fields) (v : Value)
    → find key d ≡ some v
    → remote_setting path key (some d) ≡ ok v
unfolding remote_setting setting_of open_config get_item
remote_setting_ok path key d v h = rw (h, setting_of, get_item) refl

-- Trex, where the login succeeds, the workspace's state can be had, and the stream of statuses that
-- ends with this one does not fail.
abbrev pub answering : String × String → Info → List Status → Status → Scheduler
answering token info before s = record {
  login = ok token;
  info = response info;
  statuses = ending_with before s;
}

module _ (path : UpPath) (status : ℤ) (cwd : Outcome WorkerError (Option String)) (p : Progress)
    (end : RunEnd) where
  try_exec_frozen :
      (token : String × String) (info : Info) (before : List Status) (s : Status) (arg : String)
      (argv : List String) (d : Fields) (id : Value)
      → is_zero status ≡ false
      → info.result.code ≡ 0
      → info.state ≡ "frozen"
      → find "workspace_id" d ≡ some id
      → try_exec path
          (executes status cwd p end)
          (answering token info before s)
          (arg ∷ argv)
          (some d)
        ≡ after_unfreeze (unfreeze (ending_with before s) (some d))
  unfolding try_exec maybe_unfreeze get_info checked nat_eq string_eq
  try_exec_frozen token info before s arg argv d id h c f i =
      rw (exec_unsynced status cwd _ p end h, remote_setting_ok path "workspace_id" d id i, c, f)
        refl

  pub run_command_frozen :
      (config : LocalConfig) (token : String × String) (info : Info) (before : List Status)
      (s : Status) (arg : String) (argv : List String) (d : Fields) (addr id : Value) (j : String)
      → is_zero status ≡ false
      → info.result.code ≡ 0
      → info.state ≡ "frozen"
      → find "worker_addr" d ≡ some addr
      → find "workspace_id" d ≡ some id
      → let r =
          run_command path
            (ok config)
            (ok tt)
            (executes status cwd p end)
            (answering token info before s)
            (arg ∷ argv)
            (some d) in
        (find j (entries r.0) ≡ (
          if s.result.code == StatusCode.okay
          then assigned j (assign "worker_addr" (text s.worker_addr) done) (find j d)
          else find j d))
        × (r.1 ≡ ok (pos s.result.code))
  unfolding run_command
  run_command_frozen config token info before s arg argv d addr id j h c f a i =
      rw
        (
          remote_setting_ok path "worker_addr" d addr a,
          try_exec_frozen token info before s arg argv d id h c f i,
        )
        (after_unfreeze_parts before s (some d) j)

-- Only after a failed copy is the remote file written.
pub try_exec_keeps :
    (path : UpPath) (run : List String → ExecEnd) (sch : Scheduler) (argv : List String)
    (file : Option Fields)
    → ((try_exec path run sch argv file).0 ≡ file)
      ⊎ (run (command_of argv) ≡ exec_end (raised rsync_error))
unfolding try_exec
try_exec_keeps path run sch [] file = inl refl
try_exec_keeps path run sch (arg ∷ argv) file = ground arith

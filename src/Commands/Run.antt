-- ===== src/Commands/Run.antt =====
-- rx/client/commands/runner.py. The logins, `exec` and the answers of trex come as their outcomes; the
-- state is the file of the remote configuration.
pub mod Ready
pub mod Retry
use rx.Base.{
  String, Bool, true, false, Outcome, ok, raised, Option, none, some, List, [], ◌∷◌, ◌==◌, nat_eq,
  string_eq, if◌then◌else◌,
}
use rx.Base.Integers.{ℤ, pos, minus_one}
use rx.Base.Text.{split}
use rx.Proto.{Result, Reply, Stream}
use rx.Client.Config.Values.{Value, Fields}
use rx.Client.Config.Store.{ConfigFault, config_not_found, no_key, open_config, get_item}
use rx.Client.Config.Roots.{UpPath}
use rx.Client.Config.Local.{LocalConfig}
use rx.Client.Login.{LoginError}
use rx.Client.Worker.{WorkerError, worker_error, rsync_error}
use rx.Client.Trex.{TrexFault, trex_error, Info, Status, get_info, unfreeze}
use rx.Commands.Base.{CommandFault, not_found, login_fault, key_error}

pub data RunFault : Type 0 where
  worker_fault : WorkerError → RunFault
  trex_fault : TrexFault → RunFault
  type_error : RunFault
  command_fault : CommandFault → RunFault

-- What `maybe_unfreeze` meets: its login, and the answers of trex.
pub record Scheduler : Type 0 where
  pub login : Outcome LoginError (String × String)
  pub info : Reply Info
  pub statuses : Stream Status

-- How `client.exec` ends.
pub data ExecEnd : Type 0 where
  exec_end : Outcome WorkerError ℤ → ExecEnd
  keyboard_interrupt : ExecEnd

-- The command handed to `exec`: a single argument is broken at its blanks.
unfoldable pub command_of : List String → List String
command_of [] = []
command_of (arg ∷ []) = split b' ' arg
command_of (arg ∷ next ∷ argv) = arg ∷ next ∷ argv

-- The exit code after `unfreeze`.
after_unfreeze : Option Fields × Outcome TrexFault Result → Option Fields × Outcome RunFault ℤ
after_unfreeze (file, ok r) = (file, ok (pos r.code))
after_unfreeze (file, raised e) = (file, raised (trex_fault e))

after_info :
    Stream Status → Option Fields → Outcome TrexFault Info → Option Fields × Outcome RunFault ℤ
unfolding after_unfreeze
after_info statuses file (ok info) =
    if info.state == "frozen" then after_unfreeze (unfreeze statuses file) else (file, ok minus_one)
after_info statuses file (raised (trex_error m c)) = (file, ok minus_one)
after_info statuses file (raised e) = (file, raised (trex_fault e))

-- A setting of `remote_config`, whose file is at the path.
setting_of : UpPath → String → Outcome ConfigFault Fields → Outcome CommandFault Value
setting_of path key (raised _) = raised (not_found (some path) "")
setting_of path key (ok d) = elim (get_item d key) [ ok v ↦ ok v | raised _ ↦ raised key_error ]

remote_setting : UpPath → String → Option Fields → Outcome CommandFault Value
unfolding setting_of open_config
remote_setting path key file = setting_of path key (open_config true file)

after_workspace_id :
    Scheduler → Option Fields → Outcome CommandFault Value → Option Fields × Outcome RunFault ℤ
unfolding after_info
after_workspace_id sch file (raised e) = (file, raised (command_fault e))
after_workspace_id sch file (ok id) = after_info sch.statuses file (get_info sch.info)

after_login :
    UpPath
    → Scheduler
    → Option Fields
    → Outcome LoginError (String × String)
    → Option Fields × Outcome RunFault ℤ
unfolding after_workspace_id remote_setting
after_login path sch file (raised e) = (file, raised (command_fault (login_fault e)))
after_login path sch file (ok token) =
    after_workspace_id sch file (remote_setting path "workspace_id" file)

-- `maybe_unfreeze`: the remote file after it, and the exit code.
unfoldable pub maybe_unfreeze :
    UpPath → Scheduler → Option Fields → Option Fields × Outcome RunFault ℤ
unfolding after_login
maybe_unfreeze path sch file = after_login path sch file sch.login

after_exec : UpPath → Scheduler → Option Fields → ExecEnd → Option Fields × Outcome RunFault ℤ
unfolding maybe_unfreeze
after_exec path sch file (exec_end (ok code)) = (file, ok code)
after_exec path sch file (exec_end (raised rsync_error)) = maybe_unfreeze path sch file
after_exec path sch file (exec_end (raised (worker_error code))) = (file, ok code)
after_exec path sch file (exec_end (raised e)) = (file, raised (worker_fault e))
-- `client.maybe_kill()` lacks its argument.
after_exec path sch file keyboard_interrupt = (file, raised type_error)

-- `_try_exec`, where `run` gives the end of `client.exec` for a command.
unfoldable pub try_exec :
    UpPath
    → (List String → ExecEnd)
    → Scheduler
    → List String
    → Option Fields
    → Option Fields × Outcome RunFault ℤ
unfolding command_of after_exec
try_exec path run sch [] file = (file, ok (pos 1))
try_exec path run sch (arg ∷ argv) file = after_exec path sch file (run (command_of (arg ∷ argv)))

after_worker_login :
    UpPath
    → (List String → ExecEnd)
    → Scheduler
    → List String
    → Option Fields
    → Outcome LoginError (Unit {0})
    → Option Fields × Outcome RunFault ℤ
unfolding try_exec
after_worker_login path run sch argv file (raised e) =
    (file, raised (command_fault (login_fault e)))
after_worker_login path run sch argv file (ok _) = try_exec path run sch argv file

after_worker_addr :
    UpPath
    → (List String → ExecEnd)
    → Scheduler
    → List String
    → Option Fields
    → Outcome LoginError (Unit {0})
    → Outcome CommandFault Value
    → Option Fields × Outcome RunFault ℤ
unfolding after_worker_login
after_worker_addr path run sch argv file login (raised e) = (file, raised (command_fault e))
after_worker_addr path run sch argv file login (ok addr) =
    after_worker_login path run sch argv file login

-- `_run`, from the local configuration, the login of `create_authed_client`, and the rest: the file of
-- the remote configuration after it, and the exit code.
unfoldable pub run_command :
    UpPath
    → Outcome CommandFault LocalConfig
    → Outcome LoginError (Unit {0})
    → (List String → ExecEnd)
    → Scheduler
    → List String
    → Option Fields
    → Option Fields × Outcome RunFault ℤ
unfolding after_worker_addr remote_setting
run_command path (raised e) login run sch argv file = (file, raised (command_fault e))
run_command path (ok config) login run sch argv file =
    after_worker_addr path run sch argv file login (remote_setting path "worker_addr" file)

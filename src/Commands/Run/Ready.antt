-- ===== src/Commands/Run/Ready.antt =====
-- runner.py: a run whose configuration is in order.
use rx.Base.{◌≡◌, refl, String, ok, Option, none, some, List, arith, string_eq}
use rx.Client.Config.Roots.{UpPath}
use rx.Client.Config.Values.{Value, Fields, find}
use rx.Client.Config.Store.{open_config, get_item}
use rx.Client.Config.Store.Commit.{entries}
use rx.Client.Config.Local.{LocalConfig}
use rx.Commands.Run.{ExecEnd, Scheduler, setting_of, remote_setting, try_exec, run_command}

-- A setting that the file has.
remote_setting_found :
    (path : UpPath) (key : String) (file : Option Fields) (v : Value)
    → find key (entries file) ≡ some v
    → remote_setting path key file ≡ ok v
unfolding remote_setting open_config find get_item
remote_setting_found path key none v h = absurd (ground (arith, h))
remote_setting_found path key (some d) v h = rw (setting_of, h) refl

-- With a local configuration, the address of a worker and a login, the command is tried.
pub run_command_ready :
    (path : UpPath) (config : LocalConfig) (run : List String → ExecEnd) (sch : Scheduler)
    (argv : List String) (file : Option Fields) (addr : Value)
    → find "worker_addr" (entries file) ≡ some addr
    → run_command path (ok config) (ok tt) run sch argv file ≡ try_exec path run sch argv file
unfolding run_command
run_command_ready path config run sch argv file addr h =
    rw (remote_setting_found path "worker_addr" file addr h) refl

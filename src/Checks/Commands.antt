-- ===== src/Checks/Commands.antt =====
-- The commands at concrete inputs.
use rx.Base.{
  ◌↔◌, ◌⊎◌, ◌++◌, raised, ◌≡◌, refl, String, true, false, Outcome, ok, Option, none, some, List, [],
  ◌∷◌, ◌==◌, nat_eq, string_eq, if◌then◌else◌,
}
use rx.Base.Integers.{ℤ, pos, is_zero}
use rx.Proto.{no_error}
use rx.Proto.StatusCode
use rx.Worker.Executor.{Progress}
use rx.Client.Config.Values.{text, boolean, number, Fields, end, field, find}
use rx.Client.Config.Store.{assign, done}
use rx.Client.Config.Store.Commit.{entries, assigned}
use rx.Client.Worker.{WorkerError, interrupted}
use rx.Client.Trex.{Info, Status}
use rx.Client.Config.Roots.{UpPath}
use rx.Client.Trex.{number}
use rx.Base.Integers.{minus_one}
use rx.Commands.Base.{not_found, Printed, run, run_trex}
use rx.Commands.Trex.{AclOptions, accepts}
use rx.Commands.Run.{run_command}
use rx.Commands.Run.Retry.{executes, answering, run_command_frozen}
use rx.Client.Config.Local.{LocalConfig}
use rx.Client.Menu.{ask_bool, bool_prompt}
use rx.Commands.Init
use rx.Daemon.Errors.{port_error}
use rx.Commands.Line.{first_required}
use rx.Commands.Parsers
use rx.Commands.Parsers.{Command, daemon_start, words, command_for}
use rx.Commands.Parsers.Choosing.{path_of, begins_known, command_for-path_of}
use rx.Commands.Init.{port_fault, Setting, confirm, open_ports}
use rx.Commands.Init.Consent.{makes, Consents, questions, run_made}

abbrev failed_sync : ℤ
failed_sync = pos 23

abbrev thawed : Status
thawed = record { result = no_error; worker_addr = "new:50051" }

sync_has_failed : is_zero failed_sync ≡ false
unfolding nat_eq
sync_has_failed = refl

abbrev no_progress : Progress
no_progress = record { execution_id = none; out = []; err = []; outputs = [] }

abbrev frozen : Info
frozen = record { result = no_error; state = "frozen" }

abbrev old_remote : Fields
old_remote = field "worker_addr" (text "old:50051") (field "workspace_id" (text "f1d1") end)

abbrev home : UpPath
home = "code" ∷ []

abbrev home_config : LocalConfig
home_config = record {
  cwd = home;
  project_name = text "code";
  rsync_path = text "/usr/bin/rsync";
  remote = text ".rx/remotes/default";
  should_sync = boolean true;
  daemon_port = number 8478;
}

abbrev no_cwd : Outcome WorkerError (Option String)
no_cwd = ok none

abbrev token : String × String
token = ("id-token", "secret")

has_worker_addr : find "worker_addr" old_remote ≡ some (text "old:50051")
unfolding find string_eq
has_worker_addr = refl

has_workspace_id : find "workspace_id" old_remote ≡ some (text "f1d1")
unfolding find string_eq
has_workspace_id = refl

run_command_frozen_example :
    let r =
      run_command home
        (ok home_config)
        (ok tt)
        (executes failed_sync no_cwd no_progress interrupted)
        (answering token frozen [] thawed)
        ("ls" ∷ [])
        (some old_remote) in
    (find "worker_addr" (entries r.0) ≡ (
      if thawed.result.code == StatusCode.okay
      then assigned "worker_addr"
          (assign "worker_addr" (text thawed.worker_addr) done)
          (find "worker_addr" old_remote)
      else find "worker_addr" old_remote))
    × (r.1 ≡ ok (pos thawed.result.code))
run_command_frozen_example =
    run_command_frozen home failed_sync no_cwd no_progress interrupted home_config token frozen []
      thawed "ls" [] old_remote (text "old:50051") (text "f1d1") "worker_addr" sync_has_failed refl
      refl has_worker_addr has_workspace_id

-- A first `rx init` of a directory whose files are copied.
abbrev first_time : Setting
first_time = record {
  quiet = false;
  is_dry_run = false;
  sync = true;
  config_exists = false;
  user_info_exists = false;
  creates_config = ok home_config;
  log_in = ok end;
  init = ok "f1d1";
  environment = ok (8080 ∷ []);
  starts_daemon = ok true;
  opens = λ p. raised (port_error "taken");
}

-- An empty line is the default, yes.
abbrev agreed : List String
agreed = "y" ∷ "" ∷ "Y" ∷ []

workspace_is_made : makes (Init.run first_time agreed).0 ≡ true
unfolding Init.run confirm bool_prompt ask_bool open_ports string_eq
workspace_is_made = refl

run_made_example :
    (first_time.is_dry_run ≡ false) × Consents first_time.quiet (questions first_time) agreed
run_made_example = run_made first_time agreed workspace_is_made

abbrev root_text : UpPath → String
root_text path = "/root/work"

abbrev uninitialized : Printed ℤ
uninitialized = ([], raised (not_found none "Run `rx init` first!"))

no_workspace :
    run_trex root_text uninitialized
    ≡ ("No workspace found at ., Run `rx init` first!." ∷ [], ok (number minus_one))
unfolding run_trex run
no_workspace = refl

abbrev image_only : AclOptions
image_only = record {
  visibility = none;
  add_reader = none;
  add_writer = none;
  resource = some "image";
}

image_is_accepted : accepts image_only ≡ true
unfolding accepts string_eq
image_is_accepted = refl

-- A port that cannot be forwarded ends the command, after the workspace is made.
port_is_taken : (Init.run first_time agreed).1 ≡ port_fault (port_error "taken")
unfolding Init.run confirm bool_prompt ask_bool open_ports string_eq
port_is_taken = refl

-- `rx --quiet daemon start`
abbrev start_line : List String
start_line = "daemon" ∷ "start" ∷ []

command_for-path_of_example : (command_for ("--quiet" ∷ start_line) ≡ some daemon_start) ↔ (
    ((rest : List String) × (words ("--quiet" ∷ start_line) ≡ path_of daemon_start ++ rest))
    ⊎ ((daemon_start ≡ Parsers.run) × (begins_known (words ("--quiet" ∷ start_line)) ≡ false)))
command_for-path_of_example = command_for-path_of "--quiet" start_line daemon_start

-- The value of a flag that stands by itself is taken for a command to run.
root_is_run : command_for ("--rxroot" ∷ "work" ∷ "init" ∷ []) ≡ some Parsers.run
unfolding command_for first_required string_eq
root_is_run = refl

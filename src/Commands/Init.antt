-- ===== src/Commands/Init.antt =====
-- rx/client/commands/init.py: the questions of `rx init`, over the lines that the user will type, and
-- what it does between them. The outcomes of the calls are parameters; Initialized joins them.
pub mod Consent
pub mod Initialized
pub mod Options
use rx.Base.{ℕ, String, Bool, true, false, Outcome, ok, raised, List, [], ◌∷◌, ◌++◌, if◌then◌else◌}
use rx.Base.Integers.{ℤ, pos, minus_one}
use rx.Daemon.Errors.{DaemonError}
use rx.Client.Config.Local.{LocalConfig}
use rx.Client.Config.Values.{Fields}
use rx.Client.Config.Create.{CreateError, file_exists_error, config_error}
use rx.Client.Trex.{TrexFault, trex_error, Code, number}
use rx.Client.User.{UserFault, trex_fault}
use rx.Client.Menu.{Asked, chosen, end_of_input, crashed, bool_prompt}

pub data Action : Type 0 where
  stored_config listed_files logged_in saved_config : Action
  made_workspace : Bool → Action
  opened_port : ℕ → Action

-- How the command ends: with an exit code, by `sys.exit(0)`, or by an exception that nothing catches,
-- of a prompt or of one of the calls.
pub data Ended : Type 0 where
  exit_code : Code → Ended
  create_fault : CreateError → Ended
  user_fault : UserFault → Ended
  client_fault : TrexFault → Ended
  said_goodbye no_input failed : Ended
  port_fault : DaemonError → Ended

abbrev pub Run : Type 0
Run = List Action × Ended

act : Action → Run → Run
act a (done, end) = (a ∷ done, end)

-- The options, what is there already, and the outcomes of the calls.
pub record Setting : Type 0 where
  pub quiet : Bool
  pub is_dry_run : Bool
  pub sync : Bool
  pub config_exists : Bool
  pub user_info_exists : Bool
  -- `create_local_config`
  pub creates_config : Outcome CreateError LocalConfig
  -- `create_user_or_log_in` and `init` of the client of trex.
  pub log_in : Outcome UserFault Fields
  pub init : Outcome TrexFault String
  -- `get_info`: the ports of the environment.
  pub environment : Outcome TrexFault (List ℕ)
  -- `maybe_start_daemon`, and `open_port` of the daemon's client.
  pub starts_daemon : Outcome DaemonError Bool
  pub opens : ℕ → Outcome DaemonError (Unit {0})

after_answer : (List String → Run) → Ended → Asked Bool → Run
after_answer go end (chosen true rest) = go rest
after_answer go end (chosen false rest) = ([], end)
after_answer go end end_of_input = ([], no_input)
after_answer go end crashed = ([], failed)

-- A question whose default is yes, and how the command ends at a no.
unfoldable pub confirm : Bool → Ended → List String → (List String → Run) → Run
unfolding after_answer
confirm quiet end lines go = after_answer go end (bool_prompt quiet "y" lines)

-- The `except` clause of `_run` takes a `TrexError`.
caught : TrexFault → Ended
caught (trex_error message code) = exit_code code
caught e = client_fault e

caught_user : UserFault → Ended
unfolding caught
caught_user (trex_fault e) = caught e
caught_user e = user_fault e

-- The `except` clause around `create_local_config` takes a `FileExistsError`.
caught_create : CreateError → Ended
caught_create file_exists_error = exit_code (number minus_one)
caught_create (config_error message) = create_fault (config_error message)

-- The loop of `_open_ports`; nothing catches what `open_port` of the daemon's client raises.
open_each : (ℕ → Outcome DaemonError (Unit {0})) → List ℕ → Run
unfolding act
open_each opens [] = ([], exit_code (number (pos 0)))
open_each opens (p ∷ ports) =
    let rest = open_each opens ports in
    elim (opens p) [ ok _ ↦ act (opened_port p) rest | raised e ↦ ([], port_fault e) ]

open_with : (ℕ → Outcome DaemonError (Unit {0})) → List ℕ → Outcome DaemonError Bool → Run
unfolding open_each
open_with opens ports (ok true) = open_each opens ports
open_with opens ports (ok false) = ([], exit_code (number (pos 0)))
open_with opens ports (raised e) = ([], port_fault e)

-- `_open_ports`, and the end of `_run` after it.
unfoldable pub open_ports :
    Outcome DaemonError Bool → (ℕ → Outcome DaemonError (Unit {0})) → List ℕ → Run
unfolding open_with
open_ports starts opens [] = ([], exit_code (number (pos 0)))
open_ports starts opens (p ∷ ports) = open_with opens (p ∷ ports) starts

with_environment : Setting → Outcome TrexFault (List ℕ) → Run
unfolding open_ports act caught
with_environment s (raised e) = ([], caught e)
with_environment s (ok ports) = act saved_config (open_ports s.starts_daemon s.opens ports)

-- The end of `_run`, once the workspace is asked for.
make_workspace : Setting → Run
unfolding with_environment act caught
make_workspace s = elim s.init [
  | raised e ↦ ([], caught e)
  | ok _ ↦ act (made_workspace s.sync) (with_environment s s.environment)
]

-- `_should_call_init`, where files are copied.
upload : Setting → List String → Run
unfolding confirm make_workspace
upload s lines =
    if s.sync
    then confirm s.quiet (exit_code (number (pos 0))) lines (λ rest. make_workspace s)
    else make_workspace s

log_in_then : Setting → List String → Run
unfolding act upload caught_user
log_in_then s lines = elim s.log_in [
  | raised e ↦ ([], caught_user e)
  | ok _ ↦ act logged_in (upload s lines)
]

-- `_set_up_user`
set_up_user : Setting → List String → Run
unfolding confirm log_in_then
set_up_user s lines =
    if s.user_info_exists
    then log_in_then s lines
    else confirm s.quiet (exit_code (number (pos 0))) lines (log_in_then s)

after_message : Setting → List String → Run
unfolding act set_up_user caught_create
after_message s lines = elim s.creates_config [
  | raised e ↦ ([], caught_create e)
  | ok _ ↦
      if s.is_dry_run
      then (stored_config ∷ listed_files ∷ [], exit_code (number (pos 0)))
      else act stored_config (set_up_user s lines)
]

-- `_show_init_message`
show_init_message : Setting → List String → Run
unfolding confirm after_message
show_init_message s lines =
    if s.config_exists
    then confirm s.quiet said_goodbye lines
        (λ rest. confirm s.quiet said_goodbye rest (after_message s))
    else confirm s.quiet said_goodbye lines (after_message s)

-- `_run`
unfoldable pub run : Setting → List String → Run
unfolding show_init_message after_message
run s lines = if s.is_dry_run then after_message s lines else show_init_message s lines

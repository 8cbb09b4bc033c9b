-- ===== src/Commands/Init/Initialized.antt =====
-- init.py joined with the components that it calls, and what `rx run` finds afterwards.
use rx.Base.{
  ◌≡◌, ℕ, String, Bool, true, false, Bool-cases, ◌⊎◌, Outcome, ok, Outcome-cases, Option, some,
  List, ◌∷◌, inl, inr, arith, if◌then◌else◌,
}
use rx.Base.Integers.{ℤ}
use rx.Proto.{Result, Reply, Stream}
use rx.Daemon.Errors.{DaemonError}
use rx.Client.Config.Values.{Fields, text}
use rx.Client.Config.Roots.{UpPath, config_dir, find_rxroot}
use rx.Client.Config.Local.{Yaml, LocalConfig, to_dict}
use rx.Client.Config.Create
use rx.Client.Config.Create.{create_local_config}
use rx.Client.Config.Create.Loading.{create-load_config}
use rx.Client.Login.{LoginError, Env, Login}
use rx.Client.Worker
use rx.Client.Trex
use rx.Client.Trex.{TrexFault, InitResponse}
use rx.Client.Trex.Workspace.{init_settings}
use rx.Client.User.{create_user_or_log_in}
use rx.Commands.Base.{local_config}
use rx.Commands.Base.Configured.{local_config_found}
use rx.Commands.Run.{ExecEnd, Scheduler, try_exec, run_command}
use rx.Commands.Run.Ready.{run_command_ready}
use rx.Commands.Init.{
  Run, Setting, act, upload, make_workspace, log_in_then, set_up_user, after_message,
  show_init_message, run,
}
use rx.Commands.Init.Consent.{makes, confirm_made}

-- The calls that a made workspace rests on.
pub record Made (s : Setting) : Type 0 where
  pub config : (c : LocalConfig) × (s.creates_config ≡ ok c)
  pub workspace : (id : String) × (s.init ≡ ok id)

make_workspace_made :
    (s : Setting) → makes (make_workspace s).0 ≡ true → (id : String) × (s.init ≡ ok id)
unfolding make_workspace
make_workspace_made s h = elim (Outcome-cases s.init) [
  | inl found ↦ found
  | inr (e, r) ↦ absurd (ground (arith, h, r))
]

-- A test leaves two ways to the workspace.
if_made :
    (b : Bool) (x y : Run)
    → makes (if b then x else y).0 ≡ true
    → (makes x.0 ≡ true) ⊎ (makes y.0 ≡ true)
if_made true x y h = inl h
if_made false x y h = inr h

upload_made :
    (s : Setting) (lines : List String)
    → makes (upload s lines).0 ≡ true
    → (id : String) × (s.init ≡ ok id)
unfolding upload
upload_made s lines h = elim (if_made s.sync _ _ h) [
  | inr m ↦ make_workspace_made s m
  | inl m ↦ let (rest, a, n) = confirm_made s.quiet _ lines _ m in make_workspace_made s n
]

log_in_then_made :
    (s : Setting) (lines : List String)
    → makes (log_in_then s lines).0 ≡ true
    → (id : String) × (s.init ≡ ok id)
unfolding log_in_then act
log_in_then_made s lines h = elim (Outcome-cases s.log_in) [
  | inl (u, r) ↦ upload_made s lines (rw r at h)
  | inr (e, r) ↦ absurd (ground (arith, h, r))
]

set_up_user_made :
    (s : Setting) (lines : List String)
    → makes (set_up_user s lines).0 ≡ true
    → (id : String) × (s.init ≡ ok id)
unfolding set_up_user
set_up_user_made s lines h = elim (Bool-cases s.user_info_exists) [
  | inl y ↦ log_in_then_made s lines (rw y at h)
  | inr n ↦
      let (rest, a, m) = confirm_made s.quiet _ lines _ (rw n at h) in log_in_then_made s rest m
]

after_message_made :
    (s : Setting) (lines : List String) → makes (after_message s lines).0 ≡ true → Made s
unfolding after_message act
after_message_made s lines h = elim (Outcome-cases s.creates_config) [
  | inr (e, r) ↦ absurd (ground (arith, h, r))
  | inl found ↦ elim (Bool-cases s.is_dry_run) [
    | inl y ↦ absurd (ground (arith, h, found.1, y))
    | inr n ↦ record { config = found; workspace = set_up_user_made s lines (rw (found.1, n) at h) }
  ]
]

show_init_message_made :
    (s : Setting) (lines : List String) → makes (show_init_message s lines).0 ≡ true → Made s
unfolding show_init_message
show_init_message_made s lines h = elim (Bool-cases s.config_exists) [
  | inl y ↦
      let (rest, a, m) = confirm_made s.quiet _ lines _ (rw y at h) in
      let (last, b, n) = confirm_made s.quiet _ rest _ m in after_message_made s last n
  | inr n ↦
      let (rest, a, m) = confirm_made s.quiet _ lines _ (rw n at h) in after_message_made s rest m
]

run-Made : (s : Setting) (lines : List String) → makes (run s lines).0 ≡ true → Made s
unfolding run
run-Made s lines h = elim (if_made s.is_dry_run _ _ h) [
  | inl m ↦ after_message_made s lines m
  | inr m ↦ show_init_message_made s lines m
]

-- What the components of `rx init` meet: the files and the answers of other programs.
pub record World : Type 0 where
  pub yaml : Yaml
  pub host : String
  pub rxroot : UpPath
  pub exists : UpPath → Bool
  pub quiet : Bool
  pub is_dry_run : Bool
  pub sync : Bool
  pub config_exists : Bool
  pub user_info_exists : Bool
  pub create : Create.Setting
  -- `create_user_or_log_in`
  pub env : Env
  pub email_of : String → Option String
  pub known : Reply String
  pub choice : String
  pub choice_reply : Reply Result
  pub login : Login
  pub user_file : Option Fields
  -- `init` of the client of trex, and of the client of the worker
  pub target : Outcome String (Unit {0})
  pub asked : Reply InitResponse
  pub worker_login : Outcome LoginError (Unit {0})
  pub rsync_setup : Option Result
  pub has_name : ℤ → Bool
  pub rsync_status : ℤ
  pub containers : Stream Result
  pub installed : Stream Result
  pub remote_file : Option Fields
  pub environment : Outcome TrexFault (List ℕ)
  pub starts_daemon : Outcome DaemonError Bool
  pub opens : ℕ → Outcome DaemonError (Unit {0})

module _ (w : World) where
  -- The configuration that is made, and its file.
  abbrev pub made_config : Create.Made
  made_config = create_local_config w.yaml w.exists w.create w.rxroot w.sync

  -- The client's `init`: the remote file after it, and the id of the workspace.
  abbrev pub made_remote : Option Fields × Outcome TrexFault String
  made_remote =
      Trex.init w.target w.asked w.worker_login
        (Worker.init w.sync w.rsync_setup w.has_name w.rsync_status w.containers w.installed).1
        w.remote_file

  -- `rx init` with the outcomes of its components.
  abbrev pub initializes : Setting
  initializes = record {
    quiet = w.quiet;
    is_dry_run = w.is_dry_run;
    sync = w.sync;
    config_exists = w.config_exists;
    user_info_exists = w.user_info_exists;
    creates_config = made_config.result;
    log_in =
        (create_user_or_log_in w.env w.email_of w.known w.choice w.choice_reply w.login
          w.user_file).1.1;
    init = made_remote.1;
    environment = w.environment;
    starts_daemon = w.starts_daemon;
    opens = w.opens;
  }

  pub init_then_run :
      (lines : List String) (path : UpPath) (files : UpPath → Option String)
      (exists_after : UpPath → Bool) (exec : List String → ExecEnd) (sch : Scheduler)
      (argv : List String)
      → makes (run initializes lines).0 ≡ true
      → ((c : LocalConfig)
          → made_config.result ≡ ok c
          → w.yaml.load (w.yaml.dump (to_dict c)) ≡ some (to_dict c))
      → find_rxroot exists_after w.host w.rxroot ≡ some w.rxroot
      → files ("local" ∷ config_dir w.host w.rxroot) ≡ made_config.config_file
      → run_command path
          (local_config w.yaml files exists_after w.host (some w.rxroot))
          (ok tt)
          exec
          sch
          argv
          made_remote.0
        ≡ try_exec path exec sch argv made_remote.0
  init_then_run lines path files exists_after exec sch argv h y r f =
      let made = run-Made initializes lines h in
      let (c, created) = made.config in
      let (id, asked) = made.workspace in
      let (reply, addr, _) =
        init_settings w.target w.asked w.worker_login _ w.remote_file id asked in
      rw
        (local_config_found w.yaml files exists_after w.host w.rxroot c r (
          rw f
            (create-load_config w.yaml w.exists w.rxroot w.sync c w.create (y c created) created)))
        (run_command_ready path c exec sch argv made_remote.0 (text reply.worker_addr) addr)

-- ===== src/Checks/Client.antt =====
-- The client of the worker, the client of trex and the login at concrete inputs.
use rx.Base.{
  ◌⊎◌, inl, inr, Outcome, ℕ, ◌≡◌, ◌<◌, refl, String, Bool, true, false, ok, raised, Option, none,
  some, List, [], ◌∷◌, ◌++◌, arith, ◌&&◌, ◌==◌, nat_eq, string_eq, not, is_nil, is_some, map,
}
use rx.Base.Integers.{ℤ, pos, is_zero}
use rx.Proto.{Result, no_error, response, Stream}
use rx.Proto.StatusCode
use rx.Worker.Executor.{ExecResponse, Progress}
use rx.Client.Worker.{
  Action, executed, relocation, setup_rsync, sync_to, sync_from, init_container, install_deps,
  finished, exec, last_of, deps, init,
}
use rx.Shared.Progress.{result_after}
use rx.Client.Worker.Running.{syncs_back, syncs_back-exec}
use rx.Client.Worker.Setup.{init_relocation, init_order}
use rx.Client.Login.{
  Token, http_ok, connection_error, expires, Env, Login, create, refresh_access_token, login,
}
use rx.Client.Login.Clients.{
  create_authed_clients, create-login, IsServing, AllServing, create_authed_clients_renew,
}
use rx.Client.Trex.{Poll, wait_for_payment}
use rx.Client.Trex.Payment.{Answers, Pending}
use rx.Client.Menu.{chosen, bool_prompt, ask_bool}
use rx.Client.Browser.{BrowserError}
use rx.Client.Subscribe.{subscribed, explain_subscription, subscribe}
use rx.Client.Subscribe.Paying.{subscribe_sound}
use rx.Client.Login.Metadata.{metadata}
use rx.Client.Login.Manager.{login_manager, exec_calls-IsCurrent}
use rx.Client.Worker.Calls.{exec_calls, init_calls}
use rx.Client.Worker.Calls.Carrying.{AreCalls}
use rx.Client.Login.Server.{
  serving, waiting, exchanging, Flow, start, Reach, here, then, make_server, set_port, get_code,
  set_event, browse, take_code,
}
use rx.Client.Login.Server.Redirect.{Serves, exchange_port}

abbrev ls : List String
ls = "ls" ∷ []

abbrev no_cwd : Option String
no_cwd = none

abbrev running : Progress
running = record { execution_id = some "e1"; out = []; err = []; outputs = "out.txt" ∷ [] }

abbrev synced : ℤ
synced = pos 0

sync_is_done : is_zero synced ≡ true
unfolding nat_eq
sync_is_done = refl

abbrev exited : ExecResponse
exited = record {
  result = no_error;
  execution_id = "e1";
  stdout = [];
  stderr = [];
  output_files = [];
  exit_code = 2;
}

syncs_back-exec_example :
    syncs_back (exec true synced (ok no_cwd) ls running (finished exited)).0
    ≡ (true && (exited.result.code == 0 && not (is_nil running.outputs)))
syncs_back-exec_example = syncs_back-exec true synced no_cwd ls running exited sync_is_done

abbrev has_name : ℤ → Bool
has_name status = false

abbrev no_containers : Stream Result
no_containers = record { items = []; failure = none }

abbrev has_moved : Stream Result
has_moved = record { items = record { code = StatusCode.moved; message = "" } ∷ []; failure = none }

abbrev installed : Stream Result
installed = record { items = no_error ∷ []; failure = none }

deps_moved : (init false none has_name synced no_containers has_moved).1 ≡ raised relocation
unfolding init deps last_of result_after nat_eq
deps_moved = refl

init_relocation_example :
    (r : Result) × (last_of has_moved.items ≡ some r) × (r.code ≡ StatusCode.moved)
init_relocation_example =
    init_relocation false none has_name synced no_containers has_moved deps_moved

set_up : (init true none has_name synced no_containers installed).1 ≡ ok tt
unfolding init deps last_of result_after nat_eq
set_up = refl

init_order_example :
    (init true none has_name synced no_containers installed).0
    ≡ setup_rsync ∷ sync_to ∷ init_container ∷ install_deps ∷ sync_from ∷ []
init_order_example = init_order none has_name synced no_containers installed set_up

abbrev old_token : Token
old_token = record { id_token = "old"; refresh_token = some "r" }

abbrev new_token : Token
new_token = record { id_token = "new"; refresh_token = none }

abbrev exp_at : ℕ
exp_at = 100

abbrev online : ℕ → Env
online now = record {
  browser = true;
  code_post = http_ok old_token;
  refresh_post = http_ok new_token;
  now = now;
  decode = λ t. expires exp_at;
}

abbrev logged_in : Login
logged_in = record {
  token = some old_token;
  access_file = some old_token;
  refresh_file = some old_token;
}

abbrev after_expiry : ℕ
after_expiry = 150

renewed : (login (online after_expiry) (create (some old_token) (some old_token))).1 ≡ ok tt
unfolding login refresh_access_token create
renewed = ground arith

create-login_example :
    create
      (login (online after_expiry) (create (some old_token) (some old_token))).0.access_file
      (login (online after_expiry) (create (some old_token) (some old_token))).0.refresh_file
    ≡ (login (online after_expiry) (create (some old_token) (some old_token))).0
create-login_example = create-login (online after_expiry) (some old_token) (some old_token) renewed

abbrev Known : String → Type 0
Known x = (x ≡ "old") ⊎ (x ≡ "new")

abbrev no_screen : ℕ → Env
no_screen now = record (online now) { browser = false; code_post = connection_error }

no_screen-IsServing : (now : ℕ) → IsServing Known (no_screen now)
no_screen-IsServing now = record {
  decodes = λ x i. (exp_at, refl);
  given = new_token;
  gives = refl;
  given_issued = inr refl;
}

renewing : AllServing Known (no_screen 50 ∷ no_screen after_expiry ∷ [])
unfolding AllServing
renewing = (no_screen-IsServing 50, (no_screen-IsServing after_expiry, tt))

create_authed_clients_renew_example :
    ((create_authed_clients (no_screen 50 ∷ no_screen after_expiry ∷ []) logged_in).1 ≡ ok tt)
    × ((create_authed_clients (no_screen 50 ∷ no_screen after_expiry ∷ []) logged_in).0.refresh_file
        ≡ logged_in.refresh_file)
create_authed_clients_renew_example =
    create_authed_clients_renew Known (no_screen 50 ∷ no_screen after_expiry ∷ []) logged_in
      (record {
        access = old_token;
        has_access = refl;
        issued = inl refl;
        refresh = old_token;
        has_refresh = refl;
        by_token = "r";
        has_token = refl;
      })
      renewing

abbrev subscription_missing : Result
subscription_missing = record { code = StatusCode.subscription_required; message = "" }

abbrev deadline : ℕ
deadline = 300

abbrev unpaid_poll : Poll
unpaid_poll = record { now = 10; reply = response subscription_missing }

abbrev paid_poll : Poll
paid_poll = record { now = 20; reply = response no_error }

abbrev no_browser : String → Outcome BrowserError (Unit {0})
no_browser url = ok tt

subscribes :
    subscribe
      (explain_subscription true false ("y" ∷ []))
      no_browser
      (response "")
      deadline
      (unpaid_poll ∷ paid_poll ∷ [])
    ≡ subscribed
unfolding subscribe explain_subscription bool_prompt ask_bool wait_for_payment string_eq nat_eq
subscribes = refl

subscribe_sound_example :
    (true ≡ true)
    × ((rest : List String) × (bool_prompt false "y" ("y" ∷ []) ≡ chosen true rest))
    × ((before after : List Poll) × (p : Poll) × (unpaid_poll ∷ paid_poll ∷ []
          ≡ before ++ (p ∷ after))
        × Pending deadline before
        × (p.now < deadline)
        × Answers p.reply StatusCode.okay)
subscribe_sound_example =
    subscribe_sound true false ("y" ∷ []) no_browser (response "") deadline
      (unpaid_poll ∷ paid_poll ∷ []) subscribes

abbrev browsing : Flow
browsing = record start {
  has_server = true;
  thread = serving 40123;
  port = 40123;
  main = waiting 40123;
}

browses : Reach browsing
browses =
    then _ _ (then _ _ (then _ _ here (make_server 40123 refl)) (set_port 40123 refl))
      (browse refl refl)

abbrev exchanged : Flow
exchanged = record browsing {
  code = some "4/0A";
  code_is_set = true;
  main = exchanging "4/0A" 40123;
}

exchanges : Reach exchanged
exchanges =
    then _ _
      (then _ _ (then _ _ browses (get_code 40123 "4/0A" refl)) (set_event 40123 "4/0A" refl))
      (take_code 40123 "4/0A" refl refl refl)

exchange_port_example : Serves (serving 40123) 40123
exchange_port_example = exchange_port exchanged "4/0A" 40123 exchanges refl

-- The token has expired at each use.
abbrev later : ℕ → Env
later k = online after_expiry

exec_calls-IsCurrent_example :
    AreCalls
      (login_manager later)
      (exec true synced (ok no_cwd) ls running (finished exited)).0
      (exec_calls
        (login_manager later)
        true
        synced
        (ok no_cwd)
        ls
        running
        (finished exited)
        (logged_in, 0)).0
    × AreCalls
        (login_manager later)
        (init true none has_name synced no_containers installed).0
        (init_calls
          (login_manager later)
          true
          none
          has_name
          synced
          no_containers
          installed
          (logged_in, 0)).0
exec_calls-IsCurrent_example =
    exec_calls-IsCurrent later true synced (ok no_cwd) ls running (finished exited) none has_name
      no_containers installed (logged_in, 0)

abbrev copied_then_called : List (Action × Bool)
copied_then_called = (sync_to, false) ∷ (executed ls no_cwd, true) ∷ (sync_from, false) ∷ []

-- The command is run with metadata, and the files are copied without.
calls_are_made :
    map
      (λ c. (c.0, is_some c.1))
      (exec_calls
        (login_manager later)
        true
        synced
        (ok no_cwd)
        ls
        running
        (finished exited)
        (logged_in, 0)).0
    ≡ copied_then_called
unfolding exec_calls exec nat_eq metadata refresh_access_token
calls_are_made = refl

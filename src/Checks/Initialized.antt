-- ===== src/Checks/Initialized.antt =====
-- A first `rx init`, and `rx run` after it, at concrete inputs.
use rx.Base.{
  ◌≡◌, refl, String, Bool, true, false, ok, raised, Option, none, some, List, [], ◌∷◌, ◌==◌,
  string_eq, nat_eq, is_nil, if◌then◌else◌, arith,
}
use rx.Base.Integers.{pos}
use rx.Proto.{no_error, response, rpc_error, unavailable}
use rx.Client.Config.Store.{with_config, run_body, set_item}
use rx.Shared.Progress.{result_after}
use rx.Client.Config.Values.{text, boolean, number, find}
use rx.Client.Config.Roots.{UpPath, config_dir, find_rxroot, parents, find_project_name}
use rx.Client.Config.Local.{Yaml, LocalConfig, to_dict}
use rx.Client.Config.Create.{create_local_config}
use rx.Client.Login.{Token, http_ok, expires, Env, login}
use rx.Client.Menu.{bool_prompt, ask_bool}
use rx.Client.Trex
use rx.Client.Worker
use rx.Client.Trex.{InitResponse, get_username}
use rx.Client.User.{create_user, open_user, create_user_or_log_in}
use rx.Client.Worker.{worker_error}
use rx.Commands.Base.{local_config}
use rx.Commands.Run.{ExecEnd, exec_end, Scheduler, try_exec, run_command}
use rx.Commands.Init
use rx.Commands.Init.{confirm, open_ports}
use rx.Commands.Init.Consent.{makes}
use rx.Commands.Init.Initialized.{World, made_config, made_remote, initializes, init_then_run}

abbrev code_dir : UpPath
code_dir = "code" ∷ []

abbrev new_config : LocalConfig
new_config = record {
  cwd = code_dir;
  project_name = text "code";
  rsync_path = text "/usr/bin/rsync";
  remote = text ".rx/remotes/default";
  should_sync = boolean false;
  daemon_port = number 8478;
}

-- The one text that this YAML knows is that of the new configuration.
abbrev new_yaml : Yaml
new_yaml = record {
  dump = λ d. "project_name: code";
  load = λ s. if s == "project_name: code" then some (to_dict new_config) else none;
}

abbrev id_token : Token
id_token = record { id_token = "t"; refresh_token = some "r" }

abbrev google : Env
google = record {
  browser = true;
  code_post = http_ok id_token;
  refresh_post = http_ok id_token;
  now = 50;
  decode = λ t. expires 100;
}

abbrev created : InitResponse
created = record {
  result = no_error;
  workspace_id = "f1d1";
  worker_addr = "new:50051";
  daemon_module = "sync";
}

-- A directory without anything of rx, whose files are not copied.
abbrev empty_world : World
empty_world = record {
  yaml = new_yaml;
  host = "trex";
  rxroot = code_dir;
  exists = λ p. false;
  quiet = false;
  is_dry_run = false;
  sync = false;
  config_exists = false;
  user_info_exists = false;
  create = record {
    remote = none;
    rsync_path = some "/usr/bin/rsync";
    which = none;
    makes_dir = true;
    bundled = ".git\n";
    rxignore = none;
    config_file = none;
  };
  env = google;
  email_of = λ t. some "al@example.com";
  known = response "al";
  choice = "al";
  choice_reply = response no_error;
  login = record { token = none; access_file = none; refresh_file = none };
  user_file = none;
  target = ok tt;
  asked = response created;
  worker_login = ok tt;
  rsync_setup = none;
  has_name = λ n. false;
  rsync_status = pos 0;
  containers = record { items = []; failure = none };
  installed = record { items = no_error ∷ []; failure = none };
  remote_file = none;
  environment = ok [];
  starts_daemon = ok true;
  opens = λ p. ok tt;
}

abbrev yes_twice : List String
yes_twice = "y" ∷ "y" ∷ []

abbrev file_after : UpPath → Option String
file_after p = (made_config empty_world).config_file

-- A path of four parts is that of the configuration.
abbrev four_parts : UpPath → Bool
four_parts [] = false
four_parts (a ∷ []) = false
four_parts (a ∷ b ∷ []) = false
four_parts (a ∷ b ∷ c ∷ []) = false
four_parts (a ∷ b ∷ c ∷ d ∷ rest) = is_nil rest

abbrev fails_to_run : List String → ExecEnd
fails_to_run argv = exec_end (raised (worker_error (pos 7)))

abbrev offline : Scheduler
offline = record {
  login = ok ("id-token", "t");
  info = rpc_error (record { code = unavailable; details = "down"; initial_metadata = [] });
  statuses = record { items = []; failure = none };
}

made_at_first : makes (Init.run (initializes empty_world) yes_twice).0 ≡ true
unfolding Init.run confirm bool_prompt ask_bool open_ports string_eq nat_eq create_local_config
    create_user_or_log_in login get_username create_user open_user with_config run_body find
    set_item Trex.init Worker.init result_after Worker.deps
made_at_first = refl

known_after :
    (c : LocalConfig)
    → (made_config empty_world).result ≡ ok c
    → new_yaml.load (new_yaml.dump (to_dict c)) ≡ some (to_dict c)
unfolding create_local_config string_eq find_project_name
known_after c e = ground (arith, e)

found_again : find_rxroot four_parts "trex" code_dir ≡ some code_dir
unfolding find_rxroot parents config_dir
found_again = refl

init_then_run_example :
    run_command code_dir
      (local_config new_yaml file_after four_parts "trex" (some code_dir))
      (ok tt)
      fails_to_run
      offline
      ("ls" ∷ [])
      (made_remote empty_world).0
    ≡ try_exec code_dir fails_to_run offline ("ls" ∷ []) (made_remote empty_world).0
init_then_run_example =
    init_then_run empty_world yes_twice code_dir file_after four_parts fails_to_run offline
      ("ls" ∷ []) made_at_first known_after found_again refl

-- ===== src/Checks/Config.antt =====
-- The configuration files at concrete inputs.
use rx.Base.{
  ◌⊎◌, ◌↔◌, ◌≡◌, refl, String, Bool, true, false, ok, Option, none, some, [], ◌∷◌, ◌==◌, nat_eq,
  string_eq, is_nil, if◌then◌else◌,
}
use rx.Base.Dict.{insert}
use rx.Base.Text.{show}
use rx.Client.Config.Values.{
  Value, text, number, boolean, items, dict, nil, cons, Fields, end, field, find, str,
}
use rx.Client.Config.Environment.{
  Environment, env_dict_to_pb, variable_text, remote_of, image_of, image_fields, opt_text,
  variables_of, ports_of, set_variables,
}
use rx.Client.Config.Roots.{UpPath, parents, config_dir, find_rxroot, find_project_name}
use rx.Client.Config.Store.{assign, done, Body, with_config}
use rx.Client.Config.Store.Commit.{entries, assigned, returns, with_config_commit}
use rx.Client.Config.Local.{Yaml, LocalConfig, to_dict, load_config}
use rx.Base.Paths.{FilePath, ◌/◌, path_text}
use rx.Client.Config.Files.{pid_file, daemon_pid_file}
use rx.Client.Config.Files.Relative.{daemon_pid_file-eq-pid_file}
use rx.Client.Config.Create
use rx.Client.Config.Create.{create_local_config}
use rx.Client.Config.Create.Loading.{create-load_config}
use rx.Client.Config.Environment.Shape.{IsShaped}
use rx.Client.Config.Environment.Chains.{Accepts}
use rx.Client.Config.Environment.Accepting.{env_dict_to_pb-accepts}

abbrev variables : Fields
variables = field "DEBUG" (boolean true) (field "LEVEL" (number 3) end)

abbrev image : Fields
image = field "repository" (text "python") (field "environment_variables" (dict variables) end)

abbrev config : Fields
config = field "image" (dict image) end

abbrev repr : Value → String
repr v = "{}"

abbrev python : Environment
python = record {
  remote = none;
  image = some (record {
    registry = "";
    repository = "python";
    tag = "";
    ports = [];
    environment_variables = ("DEBUG", "true") ∷ ("LEVEL", "3") ∷ [];
  });
}

accepted : env_dict_to_pb repr (some config) ≡ ok python
unfolding env_dict_to_pb find string_eq insert show remote_of image_of image_fields opt_text
    variables_of ports_of set_variables variable_text str
accepted = refl

abbrev host : String
host = "trex"

abbrev work : UpPath
work = "code" ∷ "user" ∷ []

abbrev home : UpPath
home = "user" ∷ []

-- Two parts up from a path, there is a root exactly at the home directory.
abbrev configured : UpPath → Bool
configured [] = false
configured (a ∷ []) = false
configured (a ∷ b ∷ []) = false
configured (a ∷ b ∷ c ∷ []) = false
configured (a ∷ b ∷ c ∷ p ∷ ps) = is_nil ps

home_is_found : find_rxroot configured host work ≡ some home
unfolding find_rxroot parents config_dir
home_is_found = refl

abbrev remote_file : Option Fields
remote_file = some (field "worker_addr" (text "old:50051") end)

abbrev new_address : Body
new_address = assign "worker_addr" (text "new:50051") done

with_config_commit_example : find "worker_addr" (entries (with_config new_address remote_file)) ≡ (
    if returns new_address
    then assigned "worker_addr" new_address (find "worker_addr" (entries remote_file))
    else find "worker_addr" (entries remote_file))
with_config_commit_example = with_config_commit new_address remote_file "worker_addr"

abbrev settings : LocalConfig
settings = record {
  cwd = work;
  project_name = text "code";
  rsync_path = text "/usr/bin/rsync";
  remote = text ".rx/remotes/default";
  should_sync = boolean true;
  daemon_port = number 8478;
}

-- The one text that this YAML knows is that of the settings.
abbrev one_text : Yaml
one_text = record {
  dump = λ d. "project_name: code";
  load = λ s. if s == "project_name: code" then some (to_dict settings) else none;
}

is_known : one_text.load (one_text.dump (to_dict settings)) ≡ some (to_dict settings)
unfolding string_eq
is_known = refl

abbrev making : Create.Setting
making = record {
  remote = none;
  rsync_path = none;
  which = some "/usr/bin/rsync\n";
  makes_dir = true;
  bundled = ".git\n";
  rxignore = none;
  config_file = none;
}

abbrev nowhere : UpPath → Bool
nowhere path = false

makes : (create_local_config one_text nowhere making work true).result ≡ ok settings
unfolding create_local_config find_project_name parents nat_eq string_eq
makes = refl

create-load_config_example :
    load_config one_text work (create_local_config one_text nowhere making work true).config_file
    ≡ ok settings
create-load_config_example =
    create-load_config one_text nowhere work true settings making is_known makes

abbrev web_image : Fields
web_image = field "image" (dict (field "ports" (items (cons (number 8080) nil)) end)) end

env_dict_to_pb-accepts_example : Accepts (env_dict_to_pb repr (some web_image)) ↔ IsShaped web_image
env_dict_to_pb-accepts_example = env_dict_to_pb-accepts repr web_image

abbrev terminal : FilePath
terminal = record { absolute = true; parts = "home" ∷ "user" ∷ [] }

abbrev relative_root : FilePath
relative_root = record { absolute = false; parts = "code" ∷ [] }

daemon_pid_file-eq-pid_file_example :
    (daemon_pid_file "trex" terminal relative_root ≡ terminal / pid_file "trex" relative_root)
    ↔ ((relative_root.absolute ≡ true) ⊎ (relative_root.parts ≡ []))
daemon_pid_file-eq-pid_file_example = daemon_pid_file-eq-pid_file "trex" terminal relative_root

-- It is looked for below code, and written below code/code.
written_below_code :
    path_text (daemon_pid_file "trex" terminal relative_root)
    ≡ "/home/user/code/code/.rx/trex/config/daemon.pid"
unfolding daemon_pid_file pid_file path_text
written_below_code = refl

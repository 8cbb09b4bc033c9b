-- ===== src/Client/Config/Local.antt =====
-- `LocalConfig` of rx/client/configuration/local.py, its file and the ways to find it. YAML is a
-- parameter.
pub mod Roundtrip
use rx.Base.{
  String, Bool, true, false, Outcome, ok, raised, Option, none, some, ◌∷◌, ◌>>=◌, ◌==◌, string_eq,
  if◌then◌else◌,
}
use rx.Client.Config.Values.{Value, number, text, boolean, Fields, end, field, find}
use rx.Client.Config.Roots.{UpPath, config_dir, find_rxroot}

-- `yaml.safe_dump` and `yaml.safe_load` on dicts; `none` stands for a `YAMLError`.
pub record Yaml : Type 0 where
  pub dump : Fields → String
  pub load : String → Option Fields

-- Python does not check the fields of a data class.
pub record LocalConfig : Type 0 where
  pub cwd : UpPath
  pub project_name : Value
  pub rsync_path : Value
  pub remote : Value
  pub should_sync : Value
  pub daemon_port : Value

pub data LocalError : Type 0 where
  config_not_found config_error type_error : LocalError

-- What `store` dumps.
unfoldable pub to_dict : LocalConfig → Fields
to_dict c = field "remote" c.remote (
    field "project_name" c.project_name (
      field "rsync_path" c.rsync_path
        (field "should_sync" c.should_sync (field "daemon_port" c.daemon_port end))))

required : Option Value → Outcome LocalError Value
required none = raised type_error
required (some v) = ok v

with_default : Value → Option Value → Value
with_default v none = v
with_default _ (some v) = v

-- `LocalConfig(**…)` on the known keys of a dict; `cwd` is the root that it was loaded from.
unfoldable pub from_dict : UpPath → Fields → Outcome LocalError LocalConfig
unfolding required with_default
from_dict rxroot d = do
  project_name ← required (find "project_name" d)
  rsync_path ← required (find "rsync_path" d)
  ok (record {
    cwd = rxroot;
    project_name = project_name;
    rsync_path = rsync_path;
    remote = with_default (text ".rx/remotes/default") (find "remote" d);
    should_sync = with_default (boolean true) (find "should_sync" d);
    daemon_port = with_default (number 8478) (find "daemon_port" d);
  })

module _ (yaml : Yaml) where
  -- `store`: the text of the file after it.
  unfoldable pub store : LocalConfig → String
  unfolding to_dict
  store c = yaml.dump (to_dict c)

  loaded : UpPath → Option Fields → Outcome LocalError LocalConfig
  loaded rxroot none = raised config_error
  loaded rxroot (some d) = from_dict rxroot d

  -- `load_config`, from the file's text if there is one.
  unfoldable pub load_config : UpPath → Option String → Outcome LocalError LocalConfig
  unfolding loaded
  load_config rxroot none = raised config_not_found
  load_config rxroot (some file) = loaded rxroot (yaml.load file)

  module _ (files : UpPath → Option String) (exists : UpPath → Bool) (host : String) where
    found : Option UpPath → Outcome LocalError LocalConfig
    found none = raised config_not_found
    found (some root) = load_config root (files ("local" ∷ config_dir host root))

    -- `find_local_config`, whose `None` the callers turn into `ConfigNotFoundError`.
    unfoldable pub find_local_config : UpPath → Outcome LocalError LocalConfig
    unfolding found
    find_local_config working_dir = found (find_rxroot exists host working_dir)

    from_root : Option UpPath → Outcome LocalError LocalConfig
    from_root none = raised config_not_found
    from_root (some root) = find_local_config root

    rooted : Option UpPath → UpPath → Outcome LocalError LocalConfig
    rooted (some rxroot) cwd = find_local_config rxroot
    rooted none cwd = from_root (find_rxroot exists host cwd)

    -- `get_local_config`, with the value of `--rxroot`.
    unfoldable pub get_local_config : Option UpPath → UpPath → Outcome LocalError LocalConfig
    unfolding rooted from_root
    get_local_config flag cwd = rooted flag cwd

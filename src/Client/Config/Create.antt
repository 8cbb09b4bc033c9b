-- ===== src/Client/Config/Create.antt =====
-- local.py: making the local configuration of a workspace, and reading its remote one. YAML, the
-- shell and the files are parameters.
pub mod Loading
use Prim.Native.Char.{code}
use Prim.Native.String.{String as Str}
use rx.Base.{
  String, Bool, true, false, Outcome, ok, raised, Option, none, some, List, [], ◌∷◌, ◌&&◌, ◌==◌,
  nat_eq, string_eq, if◌then◌else◌,
}
use rx.Client.Config.Values.{Value, text, number, boolean, Fields}
use rx.Client.Config.Roots.{UpPath, find_project_name}
use rx.Client.Config.Environment
use rx.Client.Config.Environment.{EnvError, Environment, env_dict_to_pb}
use rx.Client.Config.Local.{Yaml, LocalConfig, store}

rstrip : String → String
rstrip Str.[] = ""
rstrip (Str.◌∷◌ c s) =
    let rest = rstrip s in if code c == 10 && rest == "" then "" else Str.◌∷◌ c rest

lstrip : String → String
lstrip Str.[] = ""
lstrip (Str.◌∷◌ c s) = let rest = lstrip s in if code c == 10 then rest else Str.◌∷◌ c s

-- `s.strip('\n')`
unfoldable pub strip_newlines : String → String
unfolding rstrip lstrip
strip_newlines s = rstrip (lstrip s)

pub data CreateError : Type 0 where
  -- `mkdir` finds a file in its way.
  file_exists_error : CreateError
  config_error : String → CreateError

found_rsync : Option String → Outcome CreateError String
unfolding strip_newlines
found_rsync none = raised (config_error "Cannot find rsync, is it installed/on your path?")
found_rsync (some out) = ok (strip_newlines out)

-- `_get_rsync_path`, with the value of `--rsync_path` and what `which rsync` prints, if it succeeds.
unfoldable pub get_rsync_path : Option String → Option String → Outcome CreateError String
unfolding found_rsync
get_rsync_path none which = found_rsync which
get_rsync_path (some flag) which = if flag == "" then found_rsync which else ok flag

-- `_install_rxignore`, from the bundled file and the one of the workspace.
unfoldable pub install_rxignore : String → Option String → Option String
install_rxignore source none = some source
install_rxignore source (some own) = some own

-- The values of `--remote` and `--rsync_path`, what `which rsync` prints, whether `mkdir` succeeds, the
-- bundled .rxignore, and the two files before.
pub record Setting : Type 0 where
  pub remote : Option String
  pub rsync_path : Option String
  pub which : Option String
  pub makes_dir : Bool
  pub bundled : String
  pub rxignore : Option String
  pub config_file : Option String

-- The two files that it writes, and the configuration.
pub record Made : Type 0 where
  pub rxignore : Option String
  pub config_file : Option String
  pub result : Outcome CreateError LocalConfig

-- `_REMOTE.value if _REMOTE.value else _DEFAULT_REMOTE`
remote_path : Option String → String
remote_path none = ".rx/remotes/default"
remote_path (some flag) = if flag == "" then ".rx/remotes/default" else flag

config_for : (UpPath → Bool) → Option String → UpPath → Bool → String → LocalConfig
unfolding remote_path
config_for exists remote rxroot should_sync rsync_path = record {
  cwd = rxroot;
  project_name = text (find_project_name exists rxroot);
  rsync_path = text rsync_path;
  remote = text (remote_path remote);
  should_sync = boolean should_sync;
  daemon_port = number 8478;
}

module _ (yaml : Yaml) where
  stored : Option String → LocalConfig → Made
  stored rxignore c = record {
    rxignore = rxignore;
    config_file = some (store yaml c);
    result = ok c;
  }

  with_rsync :
      Option String → Option String → (String → LocalConfig) → Outcome CreateError String → Made
  unfolding stored
  with_rsync rxignore file config (ok rsync_path) = stored rxignore (config rsync_path)
  with_rsync rxignore file config (raised e) = record {
    rxignore = rxignore;
    config_file = file;
    result = raised e;
  }

  -- `create_local_config`
  unfoldable pub create_local_config : (UpPath → Bool) → Setting → UpPath → Bool → Made
  unfolding with_rsync config_for get_rsync_path install_rxignore
  create_local_config exists s rxroot should_sync =
      let ignored = install_rxignore s.bundled s.rxignore in
      if s.makes_dir
      then with_rsync ignored s.config_file (config_for exists s.remote rxroot should_sync)
          (get_rsync_path s.rsync_path s.which)
      else record {
        rxignore = ignored;
        config_file = s.config_file;
        result = raised file_exists_error;
      }

loaded_env : (Value → String) → Option (Option Fields) → Outcome EnvError Environment
loaded_env repr none = raised Environment.config_error
loaded_env repr (some d) = env_dict_to_pb repr d

-- `get_target_env`, from the text of the remote file if there is one. `load` is `yaml.safe_load`:
-- `none` is a `YAMLError`, and an empty file gives no dict.
unfoldable pub get_target_env :
    (Value → String)
    → (String → Option (Option Fields))
    → Option String
    → Outcome EnvError Environment
unfolding loaded_env
get_target_env repr load none = ok (record { remote = none; image = none })
get_target_env repr load (some file) = loaded_env repr (load file)

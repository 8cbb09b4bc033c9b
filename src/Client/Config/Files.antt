-- ===== src/Client/Config/Files.antt =====
-- The files of a workspace: the paths that config_base.py, local.py, remote.py (rx/client/configuration),
-- login.py, user.py (rx/client) and pidfile.py (rx/daemon) name.
pub mod Relative
use rx.Base.{String, Bool, false, List, [], ◌∷◌}
use rx.Base.Paths.{FilePath, ◌/◌}

abbrev names : List String → FilePath
names parts = record { absolute = false; parts = parts }

-- `get_config_dir`
unfoldable pub get_config_dir : String → FilePath → FilePath
unfolding ◌/◌
get_config_dir host rxroot = rxroot / names (".rx" ∷ host ∷ "config" ∷ [])

-- `get_local_config_path`
unfoldable pub local_config_path : String → FilePath → FilePath
unfolding get_config_dir ◌/◌
local_config_path host rxroot = get_config_dir host rxroot / names ("local" ∷ [])

-- `_get_remote_config_file`
unfoldable pub remote_config_file : String → FilePath → FilePath
unfolding get_config_dir ◌/◌
remote_config_file host rxroot = get_config_dir host rxroot / names ("remote" ∷ [])

-- `PidFile.__init__`, and `get_daemon_pid_file`
unfoldable pub pid_file : String → FilePath → FilePath
unfolding get_config_dir ◌/◌
pid_file host rxroot = get_config_dir host rxroot / names ("daemon.pid" ∷ [])

-- `_get_access_token_file` and `_get_refresh_token_file`
unfoldable pub access_token_file : String → FilePath → FilePath
unfolding get_config_dir ◌/◌
access_token_file host rxroot =
    get_config_dir host rxroot / names ("user" ∷ "access-token.yaml" ∷ [])

unfoldable pub refresh_token_file : String → FilePath → FilePath
unfolding get_config_dir ◌/◌
refresh_token_file host rxroot =
    get_config_dir host rxroot / names ("user" ∷ ".refresh-token.yaml" ∷ [])

-- `_get_user_config`
unfoldable pub user_config : String → FilePath → FilePath
unfolding get_config_dir ◌/◌
user_config host rxroot =
    (rxroot / get_config_dir host rxroot) / names ("user" ∷ "config.yaml" ∷ [])

-- The pid file of the daemon that was started in this working directory: `daemonize` has changed the
-- directory to the root before it writes the file.
unfoldable pub daemon_pid_file : String → FilePath → FilePath → FilePath
unfolding pid_file ◌/◌
daemon_pid_file host cwd rxroot = (cwd / rxroot) / pid_file host rxroot

-- ===== src/Worker/Rsync.antt =====
-- rx/worker/rsync.py. What `subprocess.run` gives is a parameter.
use rx.Base.{
  String, ◌<>◌, Bool, not, Outcome, ok, raised, none, some, List, [], ◌∷◌, ◌++◌, ◌||◌, ◌&&◌, ◌==◌,
  string_eq, if◌then◌else◌,
}
use rx.Base.Dict.{Dict, lookup}
use rx.Base.Integers.{ℤ, pos, is_zero}
use rx.Base.Paths.{FilePath, path_of, path_text, ◌/◌}
use rx.Base.Text.{starts_with, split}

-- `is_local` (rx/client/configuration/config_base.py)
unfoldable pub is_local : String → Bool
is_local addr = starts_with addr "localhost" || addr == "127.0.0.1"

pub data RsyncFault : Type 0 where
  missing_key : String → RsyncFault
  assertion_error : RsyncFault

abbrev get : Dict String String → String → Outcome RsyncFault String
get cfg key = elim (lookup key cfg) [ none ↦ raised (missing_key key) | some v ↦ ok v ]

pub record RsyncClient : Type 0 where
  pub sync_dir : FilePath
  pub cfg : Dict String String
  pub rsync_path : String
  pub daemon_addr : String

before_colon : List String → String
before_colon [] = ""
before_colon (w ∷ _) = w

-- The host that rsync connects to: a local address loses its port.
unfoldable pub host_of : String → String
unfolding before_colon
host_of addr = if is_local addr then before_colon (split b':' addr) else addr

-- `__init__`, over the directory and the rsync path of the local configuration.
unfoldable pub create : FilePath → String → Dict String String → Outcome RsyncFault RsyncClient
create cwd rsync_path cfg = elim (lookup "worker_addr" cfg) [
  | none ↦ raised (missing_key "worker_addr")
  | some addr ↦
      ok (record { sync_dir = cwd; cfg = cfg; rsync_path = rsync_path; daemon_addr = host_of addr })
]

-- `_get_cmd_args`, where `.rxignore` exists or not.
unfoldable pub cmd_args : Bool → RsyncClient → List String
cmd_args rxignore c =
    (c.rsync_path ∷ "--archive" ∷ "--compress" ∷ "--delete" ∷ [])
    ++ (if rxignore
        then ("--exclude-from=" <> path_text (c.sync_dir / path_of ".rxignore")) ∷ []
        else [])

-- The command of `to_remote`
unfoldable pub to_remote : Bool → RsyncClient → Outcome RsyncFault (List String)
to_remote rxignore c = elim (lookup "daemon_module" c.cfg) [
  | none ↦ raised (missing_key "daemon_module")
  | some module_name ↦ ok (
      cmd_args rxignore c
      ++ ("--inplace"
          ∷ (path_text c.sync_dir <> "/")
          ∷ (c.daemon_addr <> ("::" <> path_text (path_of module_name)))
          ∷ []))
]

-- The command of `from_remote`. The destination must be an absolute directory.
unfoldable pub from_remote :
    Bool → Bool → String → FilePath → RsyncClient → Outcome RsyncFault (List String)
from_remote rxignore is_dir source dest c =
    if not (is_dir && dest.absolute)
    then raised assertion_error
    else elim (lookup "daemon_module" c.cfg) [
      | none ↦ raised (missing_key "daemon_module")
      | some module_name ↦ ok (
          cmd_args rxignore c
          ++ ("--quiet"
              ∷ (c.daemon_addr
                  <> ("::" <> (path_text (path_of module_name / path_of source) <> "/")))
              ∷ path_text dest
              ∷ []))
    ]

-- `_run_rsync`: the exit status of the process. With `check=True` any status but 0 raises
-- `CalledProcessError`, which is caught; a process that a signal ended has a negative one.
unfoldable pub run_rsync : ℤ → ℤ
run_rsync status = if is_zero status then pos 0 else status

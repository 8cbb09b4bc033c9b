-- ===== src/Trex/Toolchain.antt =====
-- rx/trex/toolchain/toolchain.py: saving a remote configuration in `.rx/remotes`. The texts, from
-- YAML and the messages, and the date are parameters.
pub mod Default
use rx.Base.{
  String, ◌<>◌, Bool, true, false, Option, none, some, List, [], ◌∷◌, ◌==◌, string_eq, is_some,
  if◌then◌else◌,
}
use rx.Base.Dict.{Dict, lookup, insert}
use rx.Base.Text.{split, join}

-- The file `default`: a text of its own, or a symbolic link to a file of the directory by its name.
pub data DefaultFile : Type 0 where
  missing : DefaultFile
  regular link : String → DefaultFile

pub record Remotes : Type 0 where
  pub files : Dict String String
  pub default : DefaultFile

follow : Dict String String → DefaultFile → Option String
follow files missing = none
follow files (regular text) = some text
follow files (link name) = lookup name files

-- What reading `default` gives; `default.exists()` is that it gives something.
unfoldable pub read_default : Remotes → Option String
unfolding follow
read_default r = follow r.files r.default

-- The name of the file, with slashes replaced.
unfoldable pub file_name : String → String → String
file_name repository date = join "-" (split b'/' repository) <> ("-" <> (date <> ".yaml"))

-- `_write_config`
unfoldable pub write_config : String → String → Remotes → Remotes
write_config config name r =
    let written : Remotes = record r { files = insert name config r.files } in
    if is_some (read_default written) then written else record written { default = link name }

-- `save_config`, from the serialized environments: the directory after it, and the name of the file
-- if one is written.
unfoldable pub save_config :
    String → String → String → String → String → Remotes → Remotes × Option String
save_config starting ending config repository date r =
    if starting == ending
    then (r, none)
    else (write_config config (file_name repository date) r, some (file_name repository date))

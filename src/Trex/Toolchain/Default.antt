-- ===== src/Trex/Toolchain/Default.antt =====
-- toolchain.py: what is read from `default` and from the saved file afterwards.
use rx.Base.{
  String, ◌≡◌, ◌≢◌, refl, Bool, false, Option, none, some, arith, ◌==◌, string_eq, if◌then◌else◌,
}
use rx.Base.Dict.{dict_laws, Dict, lookup, insert, lookup-insert}
use rx.Trex.Toolchain.{
  DefaultFile, missing, regular, link, Remotes, read_default, file_name, write_config, save_config,
}

-- `default` is a link to this file.
abbrev pub links_to : DefaultFile → String → Bool
links_to missing name = false
links_to (regular text) name = false
links_to (link target) name = target == name

abbrev pub or_this : Option String → String → String
or_this none text = text
or_this (some old) text = old

read_default-write_config :
    (config name : String) (files : Dict String String) (default : DefaultFile)
    → read_default (write_config config name (record { files = files; default = default }))
      ≡ some (
          if links_to default name
          then config
          else or_this (read_default (record { files = files; default = default })) config)
unfolding read_default write_config
read_default-write_config config name files missing = grind (arith, dict_laws)
read_default-write_config config name files (regular text) = refl
read_default-write_config config name files (link target) = grind (arith, dict_laws)

lookup-write_config :
    (config name : String) (r : Remotes) (other : String)
    → lookup other (write_config config name r).files ≡ lookup other (insert name config r.files)
unfolding write_config
lookup-write_config config name r other = ground arith

-- If the environment has changed, the configuration is saved under its name, over a file that has
-- it, and no other file changes; `default` then gives the new configuration if it gave nothing or
-- is a link to that file, and else what it gave before.
pub save_config_saves :
    (starting ending config repository date : String) (r : Remotes) (other : String)
    → starting ≢ ending
    → (lookup other (save_config starting ending config repository date r).0.files
        ≡ (if other == file_name repository date then some config else lookup other r.files))
      × (read_default (save_config starting ending config repository date r).0
          ≡ some (
              if links_to r.default (file_name repository date)
              then config
              else or_this (read_default r) config))
unfolding save_config
save_config_saves starting ending config repository date r other h = ground (
  arith,
  lookup-write_config config (file_name repository date) r other,
  lookup-insert other (file_name repository date) config r.files,
  read_default-write_config config (file_name repository date) r.files r.default,
)

-- ===== src/Commands/Base/Configured.antt =====
-- command.py: a workspace whose local configuration can be loaded.
use rx.Base.{◌≡◌, refl, String, Bool, ok, Option, some, ◌∷◌}
use rx.Client.Config.Roots.{UpPath, config_dir, find_rxroot}
use rx.Client.Config.Local.{Yaml, LocalConfig, load_config}
use rx.Commands.Base.{local_config, loaded, config_of}

module _ (yaml : Yaml) (files : UpPath → Option String) (exists : UpPath → Bool)
    (host : String) where
  -- If the root is found again and the file there loads, `local_config` is what it loads as.
  pub local_config_found :
      (root : UpPath) (c : LocalConfig)
      → find_rxroot exists host root ≡ some root
      → load_config yaml root (files ("local" ∷ config_dir host root)) ≡ ok c
      → local_config yaml files exists host (some root) ≡ ok c
  unfolding local_config
  local_config_found root c r l = rw (r, config_of, l, loaded) refl

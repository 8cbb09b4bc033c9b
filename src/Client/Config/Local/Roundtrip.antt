-- ===== src/Client/Config/Local/Roundtrip.antt =====
-- local.py: a stored configuration is loaded as it was.
use rx.Base.{◌≡◌, refl, ok, some, string_eq}
use rx.Client.Config.Values.{find}
use rx.Client.Config.Roots.{UpPath}
use rx.Client.Config.Local.{Yaml, LocalConfig, to_dict, from_dict, store, load_config}

from_dict-to_dict :
    (rxroot : UpPath) (c : LocalConfig)
    → from_dict rxroot (to_dict c) ≡ ok (record c { cwd = rxroot })
unfolding from_dict to_dict find string_eq
from_dict-to_dict rxroot c = refl

-- Loading what was stored gives every field back, with the root that it is loaded from as its
-- directory, if YAML loads the dict that was dumped as it was.
pub load_config-store :
    (yaml : Yaml) (rxroot : UpPath) (c : LocalConfig)
    → yaml.load (yaml.dump (to_dict c)) ≡ some (to_dict c)
    → load_config yaml rxroot (some (store yaml c)) ≡ ok (record c { cwd = rxroot })
unfolding load_config store
load_config-store yaml rxroot c h = rw h (from_dict-to_dict rxroot c)

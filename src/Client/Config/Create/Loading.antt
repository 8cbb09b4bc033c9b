-- ===== src/Client/Config/Create/Loading.antt =====
-- local.py: the configuration that is made is the one that is found later.
use rx.Base.{
  ◌≡◌, String, Bool, true, false, Outcome, ok, raised, Option, some, arith, ◌∙◌, if◌then◌else◌,
}
use rx.Client.Config.Roots.{UpPath}
use rx.Client.Config.Local.{Yaml, LocalConfig, LocalError, to_dict, load_config}
use rx.Client.Config.Local.Roundtrip.{load_config-store}
use rx.Client.Config.Create.{
  CreateError, file_exists_error, Made, Setting, create_local_config, stored, with_rsync,
  config_for, get_rsync_path, install_rxignore,
}

module _ (yaml : Yaml) (exists : UpPath → Bool) (rxroot : UpPath) (should_sync : Bool)
    (c : LocalConfig) where
  dumped :
      (made d : LocalConfig)
      → ◌≡◌ {A = Outcome CreateError LocalConfig} (ok made) (ok d)
      → yaml.load (yaml.dump (to_dict d)) ≡ some (to_dict d)
      → yaml.load (yaml.dump (to_dict made)) ≡ some (to_dict made)
  dumped made d h y = ground (arith, h)

  same :
      (made d : LocalConfig)
      → ◌≡◌ {A = Outcome CreateError LocalConfig} (ok made) (ok d)
      → ◌≡◌ {A = Outcome LocalError LocalConfig} (ok made) (ok d)
  same made d h = ground (arith, h)

  with_rsync-load :
      (ignored file remote : Option String) (r : Outcome CreateError String)
      → yaml.load (yaml.dump (to_dict c)) ≡ some (to_dict c)
      → (with_rsync yaml ignored file (config_for exists remote rxroot should_sync) r).result ≡ ok c
      → load_config yaml rxroot
          (with_rsync yaml ignored file (config_for exists remote rxroot should_sync) r).config_file
        ≡ ok c
  unfolding with_rsync stored config_for
  with_rsync-load ignored file remote (ok path) y h =
      let made = config_for exists remote rxroot should_sync path in
      load_config-store yaml rxroot made (dumped made c h y) ∙ same made c h
  with_rsync-load ignored file remote (raised e) y h = ground arith

  made_if : (b : Bool) (s : Setting) (m : Made) → Made
  made_if b s m = if b then m else record {
    rxignore = install_rxignore s.bundled s.rxignore;
    config_file = s.config_file;
    result = raised file_exists_error;
  }

  made_if-load :
      (b : Bool) (s : Setting) (m : Made)
      → (m.result ≡ ok c → load_config yaml rxroot m.config_file ≡ ok c)
      → (made_if b s m).result ≡ ok c
      → load_config yaml rxroot (made_if b s m).config_file ≡ ok c
  unfolding made_if
  made_if-load true s m k h = k h
  made_if-load false s m k h = ground arith

  -- If `create_local_config` succeeds, then the file that it has written loads as the configuration
  -- that it returned, if YAML loads the dict that was dumped as it was.
  pub create-load_config :
      (s : Setting)
      → yaml.load (yaml.dump (to_dict c)) ≡ some (to_dict c)
      → (create_local_config yaml exists s rxroot should_sync).result ≡ ok c
      → load_config yaml rxroot (create_local_config yaml exists s rxroot should_sync).config_file
        ≡ ok c
  unfolding create_local_config made_if
  create-load_config s y h =
      made_if-load s.makes_dir s _
        (with_rsync-load _ s.config_file s.remote (get_rsync_path s.rsync_path s.which) y) h

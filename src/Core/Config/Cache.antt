-- ===== src/Core/Config/Cache.antt =====
-- The cache of the configuration.
use rtls_stream_visualizer.Base.{
  String, ◌≡◌, refl, ◌⊎◌, inl, inr, Bool, true, false, Option, none, some,
}
use rtls_stream_visualizer.Base.Dict.{Dict}
use rtls_stream_visualizer.Base.Raise.{Exc, ok, raise}
use rtls_stream_visualizer.Python.Value.{Value}
use rtls_stream_visualizer.Core.Config.Types.{AppConfig}
use rtls_stream_visualizer.Core.Config.{build_config, kept, load_config, get_config}

module _ {F : Type 0} (env : Dict String) (read : Option String → Exc (Value F)) where
  -- A load answers with the cached configuration, or with a fresh one, which it then keeps; where it
  -- raises, the cache stays as it was.
  abbrev pub Loads :
      Option String
      → Bool
      → Option (AppConfig F)
      → Exc (AppConfig F) × Option (AppConfig F)
      → Type 0
  Loads path force_reload cache (ok config, after) =
      (after ≡ some config)
      × (((cache ≡ some config) × (force_reload ≡ false))
          ⊎ (build_config env (read path) ≡ ok config))
  Loads path force_reload cache (raise e, after) =
      (after ≡ cache) × (build_config env (read path) ≡ raise e)

  kept-Loads :
      (path : Option String) (force_reload : Bool) (cache : Option (AppConfig F))
      (r : Exc (AppConfig F))
      → build_config env (read path) ≡ r
      → Loads path force_reload cache (kept cache r)
  unfolding kept
  kept-Loads path force_reload cache (ok config) built = (refl, inr built)
  kept-Loads path force_reload cache (raise e) failed = (refl, failed)

  -- `load_config` answers with the cached configuration, unless a reload is forced, or with one that
  -- it builds of the file as it is now and then keeps; where that raises, so does the load, and the
  -- cache is as it was.
  pub load_config-Loads :
      (path : Option String) (force_reload : Bool) (cache : Option (AppConfig F))
      → Loads path force_reload cache (load_config env read path force_reload cache)
  unfolding load_config
  load_config-Loads path force_reload none =
      kept-Loads path force_reload none (build_config env (read path)) refl
  load_config-Loads path true (some config) =
      kept-Loads path true (some config) (build_config env (read path)) refl
  load_config-Loads path false (some config) = (refl, inl (refl, refl))

  get_config-Loads :
      (env' : Dict String) (read' : Option String → Exc (Value F)) (path : Option String)
      (force_reload : Bool) (cache : Option (AppConfig F)) (config : AppConfig F)
      (o : Exc (AppConfig F) × Option (AppConfig F))
      → Loads path force_reload cache o
      → o.0 ≡ ok config
      → get_config env' read' o.1 ≡ (ok config, some config)
  unfolding get_config
  get_config-Loads env' read' path force_reload cache config (ok c, after) (keeps, _) h =
      rw keeps (cc)
  get_config-Loads env' read' path force_reload cache config (raise e, after) _ h = cc

  -- Once a configuration has been loaded, `get_config` gives that one, whatever the file and the
  -- environment have become.
  pub get_config-load_config :
      (env' : Dict String) (read' : Option String → Exc (Value F)) (path : Option String)
      (force_reload : Bool) (cache : Option (AppConfig F)) (config : AppConfig F)
      → (load_config env read path force_reload cache).0 ≡ ok config
      → get_config env' read' (load_config env read path force_reload cache).1
        ≡ (ok config, some config)
  get_config-load_config env' read' path force_reload cache config h =
      get_config-Loads env' read' path force_reload cache config _
        (load_config-Loads path force_reload cache) h

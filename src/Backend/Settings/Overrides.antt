-- ===== src/Backend/Settings/Overrides.antt =====
-- What the environment and the cache do to the configuration of the backend.
use rtls_stream_visualizer.Base.{String, ◌≡◌, refl, ap, Option, none, some, arith, [], ◌∷◌, subst}
use rtls_stream_visualizer.Base.Dict.{Dict}
use rtls_stream_visualizer.Base.Raise.{Exc, ok, raise, ◌>>=◌, Returns, Returns-bind, Returns-mono}
use rtls_stream_visualizer.Python.Value.{Value, integer, Fields, obj}
use rtls_stream_visualizer.Python.Runtime.{Runtime, text_of}
use rtls_stream_visualizer.Core.Config.Types.{AppConfig, RabbitMqConfig}
use rtls_stream_visualizer.Core.Config.{
  getenv, as_str, kept, get_or_use_default, build_config, build_rabbitmq_config, load_config,
  root_of, build_validation_config, build_logging_config, build_udp_server_config,
  build_broker_config, build_backend_config, build_database_config,
}
use rtls_stream_visualizer.Backend.Settings.{
  BackendConfig, int_or_raise, override, load_backend_config,
}

getenv-getenv :
    (env : Dict String) (name default : String)
    → getenv env name (getenv env name default) ≡ getenv env name default
getenv-getenv env name default = ground arith

-- The URL of a configuration that was built is the one of the environment, where it has one.
abbrev IsFixed : Dict String → String → Type 0
IsFixed env url = getenv env "RABBITMQ_URL" url ≡ url

module _ {F : Type 0} (env : Dict String) where
  -- A lookup of a text, in a chain of them.
  Returns-lookup :
      (P : RabbitMqConfig → Type 0) (raw : Fields F) (section key default : String)
      (f : String → Exc RabbitMqConfig)
      → ((s : String) → Returns P (f s))
      → Returns P (get_or_use_default as_str (obj raw) (section ∷ key ∷ []) default >>= f)
  Returns-lookup P raw section key default f h = Returns-bind P _ f λ s _. h s

  build_rabbitmq_config-IsFixed :
      (raw : Fields F) → Returns (λ c. IsFixed env c.url) (build_rabbitmq_config env raw)
  unfolding build_rabbitmq_config
  build_rabbitmq_config-IsFixed raw =
      let after = Returns-lookup (λ c. IsFixed env c.url) raw "rabbitmq" in
      after "url" _ _ λ url. after "exchange" _ _ λ exchange.
        after "exchange_type" _ _ λ exchange_type.
          after "queue" _ _
            λ queue. after "routing_key" _ _ λ routing_key. getenv-getenv env "RABBITMQ_URL" url

  build_config-IsFixed :
      (file : Exc (Value F))
      → Returns (λ (app : AppConfig F). IsFixed env app.rabbitmq.url) (build_config env file)
  unfolding build_config
  build_config-IsFixed file =
      let P : AppConfig F → Type 0 = λ app. IsFixed env app.rabbitmq.url in
      Returns-bind P file _ λ value _. Returns-bind P (root_of value) _ λ raw _.
        Returns-bind P (build_validation_config raw) _ λ validation _.
          Returns-bind P (build_logging_config raw) _ λ logging _.
            Returns-bind P (build_udp_server_config raw) _ λ udp_server _.
              Returns-bind P (build_broker_config raw) _ λ version _.
                Returns-bind P (build_rabbitmq_config env raw) _ λ rabbitmq made.
                  Returns-bind P (build_backend_config raw) _ λ backend _.
                    Returns-bind P (build_database_config raw) _ λ dsn _.
                      subst (Returns (λ c. IsFixed env c.url)) made
                        (build_rabbitmq_config-IsFixed raw)

module _ (R : Runtime) where
  override-IsFixed :
      (env : Dict String) (app : AppConfig R.Float)
      → IsFixed env app.rabbitmq.url
      → Returns (λ c. c.rabbitmq ≡ app.rabbitmq) (override R env app)
  unfolding override
  override-IsFixed env app h =
      Returns-bind (λ (c : BackendConfig). c.rabbitmq ≡ app.rabbitmq)
        (int_or_raise R (getenv env "API_PORT" (text_of R (integer app.backend.port)))) _
        λ port _. ap (λ url. record app.rabbitmq { url = url }) h

  -- The second override of the broker's URL changes nothing: in the environment in which the
  -- configuration of the program was built, the backend has the same broker, exchange and queue.
  pub override-build_config :
      (env : Dict String) (file : Exc (Value R.Float))
      → Returns
          (λ app. Returns (λ c. c.rabbitmq ≡ app.rabbitmq) (override R env app))
          (build_config env file)
  override-build_config env file =
      Returns-mono (λ (app : AppConfig R.Float). IsFixed env app.rabbitmq.url) _
        (build_config env file) (override-IsFixed env) (build_config-IsFixed env file)

  first-kept :
      (cache : Option (AppConfig R.Float)) (r : Exc (AppConfig R.Float)) → (kept cache r).0 ≡ r
  unfolding kept
  first-kept cache (ok app) = refl
  first-kept cache (raise e) = refl

  -- With a path, the backend's configuration is that of the file as it is now, with the overrides of
  -- the environment, whatever has been loaded before.
  pub load_backend_config_path :
      (env : Dict String) (read : Option String → Exc (Value R.Float)) (path : String)
      (cache : Option (AppConfig R.Float))
      → (load_backend_config R env read (some path) cache).0
        ≡ (build_config env (read (some path)) >>= override R env)
  unfolding load_backend_config load_config
  load_backend_config_path env read path none = rw first-kept refl
  load_backend_config_path env read path (some app) = rw first-kept refl

-- ===== src/Backend/Settings.antt =====
-- backend/config.py: the configuration of the backend, with the overrides of the environment.
pub mod Overrides
use rtls_stream_visualizer.Base.{String, Bool, Option, none, some, is_some}
use rtls_stream_visualizer.Base.Int.{ℤ}
use rtls_stream_visualizer.Base.Dict.{Dict}
use rtls_stream_visualizer.Base.Raise.{Exc, ok, raise, value_error, ◌>>=◌}
use rtls_stream_visualizer.Python.Text.{strip}
use rtls_stream_visualizer.Python.Value.{Value, integer}
use rtls_stream_visualizer.Python.Runtime.{Runtime, text_of}
use rtls_stream_visualizer.Python.Number.{int_of_text}
use rtls_stream_visualizer.Core.Config.Types.{AppConfig, RabbitMqConfig}
use rtls_stream_visualizer.Core.Config.{getenv, load_config}

-- `BackendConfig`: the address of the API, and the configurations of the database and the broker.
pub record BackendConfig : Type 0 where
  pub api_host : String
  pub api_port : ℤ
  pub dsn : String
  pub rabbitmq : RabbitMqConfig

module _ (R : Runtime) where
  or_value_error : Option ℤ → Exc ℤ
  or_value_error none = raise value_error
  or_value_error (some n) = ok n

  -- int(text)
  unfoldable pub int_or_raise : String → Exc ℤ
  unfolding or_value_error
  int_or_raise text = or_value_error (int_of_text R (strip text))

  unfoldable pub override : Dict String → AppConfig R.Float → Exc BackendConfig
  unfolding int_or_raise
  override env app = do
    port ← int_or_raise (getenv env "API_PORT" (text_of R (integer app.backend.port)))
    ok (record {
      api_host = getenv env "API_HOST" app.backend.host;
      api_port = port;
      dsn = getenv env "DATABASE_DSN" app.dsn;
      rabbitmq = record app.rabbitmq { url = getenv env "RABBITMQ_URL" app.rabbitmq.url };
    })

  -- A path forces a reload. The cache of core/config.py goes in and out.
  unfoldable pub load_backend_config :
      Dict String
      → (Option String → Exc (Value R.Float))
      → Option String
      → Option (AppConfig R.Float)
      → Exc BackendConfig × Option (AppConfig R.Float)
  load_backend_config env read path cache =
      let (app, after) = load_config env read path (is_some path) cache in
      ((do config ← app; override env config), after)

-- ===== src/Runner/Receiver.antt =====
-- `start_udp` of udp_receiver/main.py: the server with its parts, whose publisher is the one of
-- core/broker/rabbitmq.py, and what is closed at the end.
pub mod Wired
use rtls_stream_visualizer.Base.{
  ℕ, String, Bool, true, false, not, ◌||◌, Option, none, some, List, [], ◌∷◌, ◌++◌, if◌then◌else◌,
  is_some,
}
use rtls_stream_visualizer.Base.Dict.{Dict}
use rtls_stream_visualizer.Base.Raise.{Exception, Exc, ok, raise}
use rtls_stream_visualizer.Python.Value.{Value}
use rtls_stream_visualizer.Python.Runtime.{Runtime}
use rtls_stream_visualizer.Core.Config.Types.{RabbitMqConfig, AppConfig}
use rtls_stream_visualizer.Core.Envelope.{default_registry}
use rtls_stream_visualizer.Core.Validate.{SchemaError, Validator}
use rtls_stream_visualizer.Core.Broker.Calls.{Answers}
use rtls_stream_visualizer.Core.Broker.Publisher.{
  Publisher, Message, Outcome, returned, raised, blocked, new_publisher, publish, close,
}
use rtls_stream_visualizer.Core.Tracing.Propagator.{Telemetry}
use rtls_stream_visualizer.Core.Server.State.{
  UdpServer, Datagram, Published, Received, datagram, socket_error, Served,
}
use rtls_stream_visualizer.Core.Server.{handle, serve_one}

-- What the environment gives to a start.
pub record Surroundings (F : Type 0) : Type 1 where
  -- get_config()
  pub config : Exc (AppConfig F)
  -- `_start_metrics_server()`, whose server may not start.
  pub metrics : Exc (Unit {0})
  -- Which calls of the broker return.
  pub answers : Answers
  -- The compiled schema, once its file is read.
  pub schema : Exc (Value F → List SchemaError)
  -- socket.bind
  pub bound : Exc (Unit {0})
  pub telemetry : Telemetry
  pub received : List (Received F)

-- Where a start has come to.
pub record Receiver : Type 0 where
  pub publisher : Option Publisher
  pub served : Option Served
  -- The socket is bound and not closed.
  pub is_open : Bool

abbrev pub nothing_served : Served
nothing_served = record { published = []; failures = []; ended = false; escaped = none }

-- The loop was left, by an error of the socket or by an exception.
abbrev pub is_over : Served → Bool
is_over served = served.ended || is_some served.escaped

module _ (R : Runtime) where
  -- The server that `start_udp` makes; the rest of its fields are defaults.
  abbrev pub server_of :
      AppConfig R.Float → (Value R.Float → List SchemaError) → Telemetry → UdpServer R.Float
  server_of config schema telemetry = record {
    topic = config.udp_server.topic;
    validator = some (record { origin = config.validation.origin; schema_errors = schema });
    has_parser = true;
    json_normalizer = some config.validation.origin;
    envelope_version = config.envelope_version;
    envelope_registry = default_registry;
    event_type = "position";
    telemetry = telemetry;
    on_decode_error = none;
  }

  -- What a datagram is about to be published as.
  abbrev pub attempted : UdpServer R.Float → Datagram R.Float → Exc Published
  attempted server d = handle R server (record d { publish_error = none })

  -- `_publish_message`; `publish_error` of the datagram is what the publisher's call raises.
  abbrev pub publish_attempt :
      RabbitMqConfig → Option Exception → Exc Published → Publisher → Publisher
  publish_attempt config error (raise e) p = p
  publish_attempt config error (ok m) p =
      (publish config
        (record {
          topic = m.topic;
          body = m.message;
          headers = some m.headers;
          taken = not (is_some error);
        })
        p).0

  -- `serve_forever` with the state of its publisher.
  unfoldable pub serve_with :
      UdpServer R.Float
      → RabbitMqConfig
      → Served
      → Publisher
      → List (Received R.Float)
      → Served × Publisher
  serve_with server config state p [] = (state, p)
  serve_with server config state p (socket_error ∷ more) = (record state { ended = true }, p)
  serve_with server config state p (datagram d ∷ more) =
      let next = serve_one R server state d in
      let sent = publish_attempt config d.publish_error (attempted server d) p in
      let rest = serve_with server config next sent more in
      elim next.escaped [ none ↦ rest | some e ↦ (next, sent) ]

  -- The `finally`: the socket is closed, then the publisher.
  abbrev pub shut_down : Answers → Served × Publisher → Receiver
  shut_down answers (served, p) =
      if is_over served
      then (record { publisher = some (close answers p).0; served = some served; is_open = false })
      else (record { publisher = some p; served = some served; is_open = true })

  -- From the server on; a bind that raises is before the `try`.
  abbrev pub run_server :
      Surroundings R.Float
      → AppConfig R.Float
      → Publisher
      → (Value R.Float → List SchemaError)
      → Exc (Unit {0})
      → Receiver
  run_server s config p schema (raise e) = record {
    publisher = some p;
    served = none;
    is_open = false;
  }
  run_server s config p schema (ok u) =
      shut_down s.answers (
        serve_with (server_of config schema s.telemetry) config.rabbitmq nothing_served p
          s.received)

  abbrev pub load_schema :
      Surroundings R.Float
      → AppConfig R.Float
      → Publisher
      → Exc (Value R.Float → List SchemaError)
      → Receiver
  load_schema s config p (raise e) = record { publisher = some p; served = none; is_open = false }
  load_schema s config p (ok schema) = run_server s config p schema s.bound

  -- An `__init__` that raises leaves no publisher to the caller.
  abbrev pub connect_publisher :
      Surroundings R.Float → AppConfig R.Float → Publisher × Outcome → Receiver
  connect_publisher s config (p, returned) = load_schema s config p s.schema
  connect_publisher s config (p, outcome) = record {
    publisher = none;
    served = none;
    is_open = false;
  }

  abbrev pub start_metrics : Surroundings R.Float → AppConfig R.Float → Exc (Unit {0}) → Receiver
  start_metrics s config (raise e) = record { publisher = none; served = none; is_open = false }
  start_metrics s config (ok u) =
      connect_publisher s config (new_publisher config.rabbitmq s.answers)

  abbrev pub configure : Surroundings R.Float → Exc (AppConfig R.Float) → Receiver
  configure s (raise e) = record { publisher = none; served = none; is_open = false }
  configure s (ok config) = start_metrics s config s.metrics

  unfoldable pub start_udp : Surroundings R.Float → Receiver
  unfolding serve_with
  start_udp s = configure s s.config

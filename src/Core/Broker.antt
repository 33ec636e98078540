-- ===== src/Core/Broker.antt =====
-- core/broker/rabbitmq.py: the message that `_publish` hands to the exchange.
pub mod Calls
pub mod Publisher
use Prim.Native.String.{[] as nil, ◌∷◌ as cons}
use rtls_stream_visualizer.Base.{String, Option, none, some, [], ◌∷◌}
use rtls_stream_visualizer.Base.Dict.{Dict}

-- `aio_pika.Message` with the key that it is published under.
pub record AmqpMessage : Type 0 where
  pub body : String
  pub headers : Option (Dict String)
  pub routing_key : String

-- `dict(headers) if headers else None`
abbrev or_none : Option (Dict String) → Option (Dict String)
or_none none = none
or_none (some []) = none
or_none (some (h ∷ headers)) = some (h ∷ headers)

-- `topic or self._config.routing_key`
abbrev or_default : String → String → String
or_default nil key = key
or_default (cons c topic) key = cons c topic

unfoldable pub amqp_message : String → String → String → Option (Dict String) → AmqpMessage
amqp_message config_key topic message headers = record {
  body = message;
  headers = or_none headers;
  routing_key = or_default topic config_key;
}

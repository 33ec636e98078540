-- ===== src/Core/Broker/Publisher.antt =====
-- `RabbitMQPublisher` of core/broker/rabbitmq.py: the event loop in its thread, the connection, and
-- what reaches the exchange.
pub mod Closed
use rtls_stream_visualizer.Base.{
  ℕ, ◌+◌, String, Bool, true, false, Option, List, [], ◌∷◌, ◌++◌, if◌then◌else◌,
}
use rtls_stream_visualizer.Base.Dict.{Dict}
use rtls_stream_visualizer.Core.Config.Types.{RabbitMqConfig}
use rtls_stream_visualizer.Core.Broker.{AmqpMessage, amqp_message}
use rtls_stream_visualizer.Core.Broker.Calls.{
  Call, connect, open_channel, exchange_type, declare_exchange, close_channel, close_connection,
  Answers, make,
}

pub record Publisher : Type 0 where
  pub calls : List Call
  -- self._loop.is_running()
  pub is_running : Bool
  -- What the exchange has taken.
  pub delivered : List AmqpMessage
  -- publisher_messages_total
  pub messages_total : ℕ

-- How a call of a method ends; one that is blocked waits for a loop that does not run any more.
pub data Outcome : Type 0 where
  returned raised blocked : Outcome

-- `_connect`
abbrev pub connect_calls : RabbitMqConfig → List Call
connect_calls config =
    connect config.url
    ∷ open_channel
    ∷ exchange_type config.exchange_type
    ∷ declare_exchange config.exchange config.exchange_type
    ∷ []

abbrev pub ended : Bool → Outcome
ended fine = if fine then returned else raised

-- `__init__`: the thread runs whether or not the connection is made.
unfoldable pub new_publisher : RabbitMqConfig → Answers → Publisher × Outcome
new_publisher config answers =
    let (made, fine) = make answers (connect_calls config) in
    (record { calls = made; is_running = true; delivered = []; messages_total = 0 }, ended fine)

-- A message, with whether the exchange takes it.
pub record Message : Type 0 where
  pub topic : String
  pub body : String
  pub headers : Option (Dict String)
  pub taken : Bool

-- `_publish`
abbrev pub deliver : RabbitMqConfig → Message → Publisher → Publisher × Outcome
deliver config m p =
    if m.taken
    then (
      record p {
        delivered = p.delivered ++ amqp_message config.routing_key m.topic m.body m.headers ∷ [];
        messages_total = p.messages_total + 1;
      },
      returned,
    )
    else (p, raised)

unfoldable pub publish : RabbitMqConfig → Message → Publisher → Publisher × Outcome
publish config m p = if p.is_running then deliver config m p else (p, blocked)

-- `_close_connection`, and the stop of the loop if that has returned.
abbrev pub shut : List Call × Bool → Publisher → Publisher × Outcome
shut (made, true) p = (record p { calls = p.calls ++ made; is_running = false }, returned)
shut (made, false) p = (record p { calls = p.calls ++ made }, raised)

unfoldable pub close : Answers → Publisher → Publisher × Outcome
close answers p =
    if p.is_running
    then shut (make answers (close_channel ∷ close_connection ∷ [])) p
    else (p, returned)

pub data Use : Type 0 where
  publishes : Message → Use
  closes : Answers → Use

abbrev pub use_once : RabbitMqConfig → Use → Publisher → Publisher × Outcome
use_once config (publishes m) p = publish config m p
use_once config (closes answers) p = close answers p

-- Any calls of the two methods, one after another.
unfoldable pub use_all : RabbitMqConfig → List Use → Publisher → Publisher
unfolding publish close
use_all config [] p = p
use_all config (u ∷ uses) p = use_all config uses (use_once config u p).0

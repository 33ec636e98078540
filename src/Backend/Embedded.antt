-- ===== src/Backend/Embedded.antt =====
-- backend/app.py: the connection of the embedded consumer, `_run_consumer`, and the lifespan of the
-- application around it.
--
-- A round is one turn of the loop: what the broker answers in it, and what the stop event is when it
-- is looked at or waited for. Rounds stand for a run of any length; where they end, the consumer is
-- about to try again.
pub mod Rounds
pub mod Recovery
pub mod Plain
use rtls_stream_visualizer.Base.{
  ℕ, String, ◌≡◌, Bool, true, false, not, List, [], ◌∷◌, ◌++◌, if◌then◌else◌,
}
use rtls_stream_visualizer.Core.Config.Types.{RabbitMqConfig}
use rtls_stream_visualizer.Core.Broker.Calls.{
  Call, connect, open_channel, set_qos, exchange_type, declare_exchange, declare_queue, bind,
  consume, close_connection, Answers, make,
}
use rtls_stream_visualizer.Backend.Flight.{prefetch_count}

abbrev pub set_up : RabbitMqConfig → List Call
set_up config =
    connect config.url
    ∷ open_channel
    ∷ set_qos prefetch_count
    ∷ exchange_type config.exchange_type
    ∷ declare_exchange config.exchange config.exchange_type
    ∷ declare_queue config.queue
    ∷ bind config.queue config.exchange config.routing_key
    ∷ consume config.queue
    ∷ []

pub record Round : Type 0 where
  -- stop_event.is_set() at the head of the loop
  pub is_set : Bool
  pub answers : Answers
  -- The event is set while the round waits for it: after the set-up, or before the retry.
  pub stops : Bool
  -- connection.is_closed, before anything here closes it.
  pub is_closed : Bool

-- The connections that were made, newest first, as their `is_closed`; the variable `connection` holds
-- the newest.
pub record Consumer : Type 0 where
  pub connections : List Bool
  pub calls : List Call

abbrev pub new_consumer : Consumer
new_consumer = record { connections = []; calls = [] }

pub data Ending : Type 0 where
  -- The loop was left.
  stopped : Ending
  -- close() raised, and the exception left the loop.
  escaped : Ending
  -- The set-up is done, and the event is not set.
  consuming : Ending
  -- The wait has timed out, and the loop goes on.
  retrying : Ending

-- The body of the `try` up to the wait.
unfoldable pub attempt : RabbitMqConfig → Round → Consumer → Consumer × Bool
attempt config round s =
    let (made, fine) = make round.answers (set_up config) in
    (
      record {
        connections =
            if round.answers (connect config.url)
            then round.is_closed ∷ s.connections
            else s.connections;
        calls = s.calls ++ made;
      },
      fine,
    )

abbrev pub close_newest : Answers → List Bool → List Call → Consumer × Bool
close_newest answers (false ∷ older) calls = (
  record { connections = answers close_connection ∷ older; calls = calls ++ close_connection ∷ [] },
  answers close_connection,
)
close_newest answers connections calls = (record { connections = connections; calls = calls }, true)

-- The `finally`, and whether it returned.
abbrev pub close_open : Answers → Consumer → Consumer × Bool
close_open answers s = close_newest answers s.connections s.calls

unfoldable pub leave : Ending → Consumer × Bool → Consumer × Ending
leave ending (s, true) = (s, ending)
leave ending (s, false) = (s, escaped)

-- After the body: the wait, and the way out through the `finally`.
unfoldable pub after_attempt : Round → Consumer × Bool → Consumer × Ending
unfolding leave
after_attempt round (s, true) =
    if round.stops then leave stopped (close_open round.answers s) else (s, consuming)
after_attempt round (s, false) =
    if round.stops
    then leave stopped (close_open round.answers s)
    else leave retrying (close_open round.answers s)

abbrev pub go_on : Consumer × Ending → Consumer × Ending → Consumer × Ending
go_on (s, retrying) rest = rest
go_on end rest = end

unfoldable pub run_consumer : RabbitMqConfig → List Round → Consumer → Consumer × Ending
unfolding attempt after_attempt
run_consumer config [] s = (s, retrying)
run_consumer config (round ∷ rounds) s =
    let end = after_attempt round (attempt config round s) in
    let rest = run_consumer config rounds end.0 in
    if round.is_set then (s, stopped) else go_on end rest

-- The state that a shutdown leaves: the consumer, how it ended, and whether the pool was closed.
pub record Shutdown : Type 0 where
  pub consumer : Consumer
  pub ending : Ending
  pub pool_closed : Bool

abbrev pub is_stopped : Ending → Bool
is_stopped stopped = true
is_stopped ending = false

-- `_lifespan`: the pool is closed after the task of the consumer has returned.
unfoldable pub lifespan : RabbitMqConfig → List Round → Shutdown
unfolding run_consumer
lifespan config rounds =
    let (s, ending) = run_consumer config rounds new_consumer in
    record { consumer = s; ending = ending; pool_closed = is_stopped ending }

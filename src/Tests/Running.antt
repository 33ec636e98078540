-- ===== src/Tests/Running.antt =====
-- Runs of the connection of the consumer, of the publisher and of logging.
use native.Mathlib.Decide.{dec_lt}
use rtls_stream_visualizer.Base.{
  ◌≡◌, refl, true, false, none, some, List, [], ◌∷◌, ◌++◌, map, eqb, arith, if◌then◌else◌,
}
use rtls_stream_visualizer.Python.Number.{digits, hex_digit}
use rtls_stream_visualizer.Core.Config.Types.{RabbitMqConfig}
use rtls_stream_visualizer.Core.Broker.Calls.{
  Call, connect, close_connection, Answers, AllAnswered, make,
}
use rtls_stream_visualizer.Core.Broker.Publisher.{
  Publisher, Message, publishes, closes, use_all, publish, blocked,
}
use rtls_stream_visualizer.Core.Broker.Publisher.Closed.{closed_after, use_all-closed}
use rtls_stream_visualizer.Backend.Embedded.{
  set_up, Round, new_consumer, escaped, run_consumer, lifespan,
}
use rtls_stream_visualizer.Backend.Embedded.Rounds.{Ended, run_consumer-Ended}
use rtls_stream_visualizer.Backend.Embedded.Recovery.{Fails, lifespan-escaped}
use rtls_stream_visualizer.Backend.Embedded.Plain.{main, end_of, main-run_consumer}
use rtls_stream_visualizer.Core.Logging.{SpanContext, inject_trace}
use rtls_stream_visualizer.Core.Logging.Digits.{inject_trace-read}
use rtls_stream_visualizer.Core.Logging.Hex.{format_hex, pad_hex, hex_char}
use rtls_stream_visualizer.Tests.Sample.{sample}

abbrev pub rabbitmq : RabbitMqConfig
rabbitmq = record {
  url = "amqp://localhost/";
  exchange = "rtls";
  exchange_type = "topic";
  queue = "rtls.events";
  routing_key = "rtls.events";
}

abbrev pub all_answered : Answers
all_answered call = true

pub all_answered-AllAnswered : (calls : List Call) → AllAnswered all_answered calls
all_answered-AllAnswered [] = tt
all_answered-AllAnswered (call ∷ calls) = (refl, all_answered-AllAnswered calls)

-- The broker is away.
abbrev away : Answers
away (connect url) = false
away call = true

abbrev close_breaks : Answers
close_breaks close_connection = false
close_breaks call = true

abbrev failing_round : Round
failing_round = record { is_set = false; answers = away; stops = false; is_closed = false }

failing_round-Fails : Fails rabbitmq failing_round
unfolding make
failing_round-Fails = record { unset = refl; raises = refl; times_out = refl; closes = refl }

abbrev working_round : Round
working_round = record { is_set = false; answers = all_answered; stops = false; is_closed = false }

abbrev breaking_round : Round
breaking_round = record { is_set = false; answers = close_breaks; stops = true; is_closed = false }

run_consumer-Ended_example :
    Ended rabbitmq
      (run_consumer rabbitmq (failing_round ∷ breaking_round ∷ []) new_consumer).0.connections
      (run_consumer rabbitmq (failing_round ∷ breaking_round ∷ []) new_consumer).0.calls
      (run_consumer rabbitmq (failing_round ∷ breaking_round ∷ []) new_consumer).1
run_consumer-Ended_example =
    run_consumer-Ended rabbitmq (failing_round ∷ breaking_round ∷ []) new_consumer tt

lifespan-escaped_example :
    ((lifespan rabbitmq ((failing_round ∷ []) ++ breaking_round ∷ [])).ending ≡ escaped)
    × ((lifespan rabbitmq ((failing_round ∷ []) ++ breaking_round ∷ [])).pool_closed ≡ false)
lifespan-escaped_example =
    lifespan-escaped rabbitmq (failing_round ∷ []) breaking_round [] (failing_round-Fails, tt)
      (record {
        unset = refl;
        answered = (refl, (refl, (refl, (refl, (refl, (refl, (refl, (refl, tt))))))));
        stops = refl;
        open_ = refl;
        breaks = refl;
      })

main-run_consumer_example : main rabbitmq breaking_round ≡ (
  (run_consumer rabbitmq (breaking_round ∷ []) new_consumer).0.calls,
  end_of
      (make breaking_round.answers (set_up rabbitmq)).1
      (run_consumer rabbitmq (breaking_round ∷ []) new_consumer).1,
)
main-run_consumer_example = main-run_consumer rabbitmq breaking_round refl refl

abbrev span : SpanContext
span = record { trace_id = 4660; span_id = 171 }

format_hex_run : format_hex 4 171 ≡ "00ab"
unfolding format_hex pad_hex hex_char dec_lt
format_hex_run = refl

inject_trace-read_example :
    (digits (hex_digit sample) 16 false 0 0 (inject_trace span).trace_id ≡ some (4660, 32))
    × (digits (hex_digit sample) 16 false 0 0 (inject_trace span).span_id
        ≡ some (if eqb 4660 0 then 0 else 171, 16))
inject_trace-read_example = inject_trace-read sample span (omega arith) (omega arith)

abbrev message : Message
message = record { topic = ""; body = "{}"; headers = none; taken = true }

abbrev running : Publisher
running = record { calls = []; is_running = true; delivered = []; messages_total = 0 }

use_all-closed_example :
    (use_all rabbitmq
        (map publishes (message ∷ record message { taken = false } ∷ [])
          ++ closes all_answered ∷ publishes message ∷ [])
        running
      ≡ closed_after rabbitmq (message ∷ record message { taken = false } ∷ []) running)
    × ((m : Message)
        → (publish rabbitmq m
            (closed_after rabbitmq (message ∷ record message { taken = false } ∷ []) running)).1
          ≡ blocked)
use_all-closed_example =
    use_all-closed rabbitmq (message ∷ record message { taken = false } ∷ []) all_answered
      (publishes message ∷ []) running refl (refl, (refl, tt))

-- ===== src/Tests/Concurrent.antt =====
-- A position on its way from a datagram to a backend that is started again meanwhile.
use mathlib.Core.List.{Perm}
use mathlib.Core.List.Perm
use rtls_stream_visualizer.Base.{String, refl, none, some, List, [], ◌∷◌, arith}
use rtls_stream_visualizer.Base.Int.{pos}
use rtls_stream_visualizer.Base.Dict
use rtls_stream_visualizer.Python.Value.{Fields, obj, entries, of_entries, int}
use rtls_stream_visualizer.Python.Runtime.{Loaded, loaded}
use rtls_stream_visualizer.Handler.Event.{NormalizedEvent, as_dict}
use rtls_stream_visualizer.Core.Envelope.{build_v1}
use rtls_stream_visualizer.Core.Broker.Calls.{close_channel, close_connection}
use rtls_stream_visualizer.Core.Broker.Publisher.{Publisher, connect_calls}
use rtls_stream_visualizer.Core.Server.State.{Datagram, UdpServer, datagram, socket_error}
use rtls_stream_visualizer.Backend.Params.{extract_params, item, fields_of}
use rtls_stream_visualizer.Backend.Database.{Row, row_of, newer_row}
use rtls_stream_visualizer.Backend.Broadcast.{new_broadcast, publish}
use rtls_stream_visualizer.Backend.Consumer.Delivered.{params_of}
use rtls_stream_visualizer.Backend.Flight.{
  begin, begin_tagged, begin_row, begins, upserts, commits, offers, commit_rows,
}
use rtls_stream_visualizer.Backend.Flight.Splits.{unoffered}
use rtls_stream_visualizer.Backend.Redelivery.{
  Broker, ends, arrives, delivers, works, acknowledges, restarts, Turns, stay, go, new_broker,
}
use rtls_stream_visualizer.Runner.Receiver.{Surroundings, server_of}
use rtls_stream_visualizer.Runner.Receiver.Wired.{Starts}
use rtls_stream_visualizer.Pipeline.Carried.{Sent, object_of_sent, Carried}
use rtls_stream_visualizer.Tests.Codec.{codec}
use rtls_stream_visualizer.Tests.Core.{one_context}
use rtls_stream_visualizer.Tests.Programs.{app_config}
use rtls_stream_visualizer.Tests.Running.{rabbitmq, all_answered-AllAnswered}
use rtls_stream_visualizer.Tests.Backend.{storage, world}
use rtls_stream_visualizer.Tests.EndToEnd.{garbled_datagram, surroundings}

abbrev server : UdpServer String
server = server_of codec app_config (λ v. []) (one_context [])

abbrev status_datagram : Datagram String
status_datagram = record garbled_datagram { decoded = some "status1: 68,00A320,1614,7,2,9" }

abbrev status_event : NormalizedEvent String
status_event = record {
  origin = "ls-1000";
  tag_id = "1614";
  ts_utc_ms = int (pos 7);
  source_type = "status1";
  status = none;
  layer = some (int (pos 9));
  area = none;
  x = none;
  y = none;
  z = none;
  raw_message = "status1: 68,00A320,1614,7,2,9";
  lng = none;
  lat = none;
  parse_warnings = [];
}

abbrev sent : Sent String
sent = record { datagram = status_datagram; event = status_event; origin = "ls-1000" }

abbrev message : Loaded String
message = loaded (obj (object_of_sent codec server sent))

abbrev status_row : Row String
status_row = record {
  tag_id = "1614";
  ts_utc_ms = pos 7;
  params = params_of codec storage server status_datagram status_event "ls-1000";
}

abbrev taken : Surroundings String
taken = record surroundings {
  received = datagram garbled_datagram ∷ datagram status_datagram ∷ socket_error ∷ [];
}

abbrev taken-Starts : Starts codec taken
taken-Starts = record {
  config = app_config;
  schema = λ v. [];
  has_config = refl;
  has_metrics = refl;
  connects = all_answered-AllAnswered (connect_calls rabbitmq);
  has_schema = refl;
  binds = refl;
  disconnects = all_answered-AllAnswered (close_channel ∷ close_connection ∷ []);
}

abbrev datagrams : List (Datagram String)
datagrams = garbled_datagram ∷ status_datagram ∷ []

-- The backend ends before its handler has begun, and the next run takes the message again.
abbrev object : Fields String
object = object_of_sent codec server sent

abbrev emptied : Broker String
emptied = record {
  ready = [];
  system = record {
    world = record world {
      tables = commit_rows status_row status_row world.tables;
      broadcast = publish (new_broadcast 2) object;
      processed = 1;
    };
    flight = [];
    committed = (object, status_row) ∷ [];
    published = (object, status_row) ∷ [];
  };
  settled = message ∷ [];
  unacked = [];
  again = [];
  committed = [];
  published = [];
  lost = [];
}

unfoldable to_emptied : Turns codec (new_broker world) emptied
unfolding begin begin_tagged begin_row row_of extract_params item fields_of Dict.get Dict.set
    entries of_entries as_dict build_v1 newer_row ends unoffered new_broadcast
to_emptied =
    go
      (go
        (go
          (go
            (go
              (go
                (go (go (go stay (arrives message)) (delivers message [] [] refl (omega arith)))
                  restarts)
                (delivers message [] [] refl (omega arith)))
              (works (begins storage message [] [] refl)))
            (works (upserts object status_row [] [] refl refl)))
          (works (commits object status_row status_row [] [] refl)))
        (works (offers object status_row [] [] refl)))
      (acknowledges message [] [] refl)

-- ===== src/Tests/EndToEnd.antt =====
-- A position on its way from a datagram to the tables and the clients.
use rtls_stream_visualizer.Base.{String, ◌≡◌, refl, ap, ◌∙◌, none, some, List, [], ◌∷◌, All}
use rtls_stream_visualizer.Base.Int.{pos}
use rtls_stream_visualizer.Base.Dict
use rtls_stream_visualizer.Base.Raise.{ok}
use rtls_stream_visualizer.Python.Runtime.{malformed}
use rtls_stream_visualizer.Core.Broker.Calls.{close_channel, close_connection}
use rtls_stream_visualizer.Core.Broker.Publisher.{Publisher, connect_calls}
use rtls_stream_visualizer.Core.Server.State.{Datagram, Published, datagram, socket_error}
use rtls_stream_visualizer.Core.Server.Delivery.{SparesHeaders}
use rtls_stream_visualizer.Backend.Consumer.{on_messages}
use rtls_stream_visualizer.Backend.Consumer.Accepted.{Holds}
use rtls_stream_visualizer.Runner.Receiver.{Surroundings, server_of, start_udp}
use rtls_stream_visualizer.Runner.Receiver.Wired.{Starts}
use rtls_stream_visualizer.Pipeline.Carried.{Sent, Carried}
use rtls_stream_visualizer.Pipeline.Arrival.{
  ReadsBack, read_all, all_stored, published_of, start_udp-Holds,
}
use rtls_stream_visualizer.Tests.Codec.{codec, loads-dumps}
use rtls_stream_visualizer.Tests.Core.{one_context}
use rtls_stream_visualizer.Tests.Handler.{display_text}
use rtls_stream_visualizer.Tests.Programs.{app_config}
use rtls_stream_visualizer.Tests.Running.{rabbitmq, all_answered, all_answered-AllAnswered}
use rtls_stream_visualizer.Tests.Backend.{storage, world}

abbrev display_datagram : Datagram String
display_datagram = record {
  decoded = some display_text;
  loaded_data = malformed "bytes";
  source_ip = "10.0.0.7";
  source_port = "4242";
  normalized_at_ms = pos 8;
  ingested_at_ms = pos 9;
  publish_error = none;
}

abbrev pub garbled_datagram : Datagram String
garbled_datagram = record display_datagram { decoded = none }

abbrev datagrams : List (Datagram String)
datagrams = garbled_datagram ∷ display_datagram ∷ []

abbrev pub surroundings : Surroundings String
surroundings = record {
  config = ok app_config;
  metrics = ok tt;
  answers = all_answered;
  schema = ok (λ v. []);
  bound = ok tt;
  telemetry = one_context [];
  received = datagram garbled_datagram ∷ datagram display_datagram ∷ socket_error ∷ [];
}

abbrev pub starts : Starts codec surroundings
starts = record {
  config = app_config;
  schema = λ v. [];
  has_config = refl;
  has_metrics = refl;
  connects = all_answered-AllAnswered (connect_calls rabbitmq);
  has_schema = refl;
  binds = refl;
  disconnects = all_answered-AllAnswered (close_channel ∷ close_connection ∷ []);
}

pub receiver-SparesHeaders : SparesHeaders (server_of codec app_config (λ v. []) (one_context []))
unfolding Dict.get
receiver-SparesHeaders = record {
  source_ip = λ c. refl;
  source_port = λ c. refl;
  origin = λ c. refl;
  parser = λ c. refl;
}

pub codec-ReadsBack : (ps : List Published) → All (ReadsBack codec) ps
codec-ReadsBack [] = tt
codec-ReadsBack (p ∷ ps) =
    (λ fs written. ap codec.loads written ∙ loads-dumps _, codec-ReadsBack ps)

start_udp-Holds_example :
    (p : Publisher) × (ss : List (Sent String)) × ((start_udp codec surroundings).publisher
      ≡ some p)
    × Carried codec
        (server_of codec app_config (λ v. []) (one_context []))
        datagrams
        (published_of codec surroundings starts datagrams)
        ss
    × Holds world
        (all_stored codec storage (server_of codec app_config (λ v. []) (one_context [])) ss)
        (on_messages codec (read_all codec storage p.delivered) world)
start_udp-Holds_example =
    start_udp-Holds codec surroundings starts datagrams [] storage world refl refl
      receiver-SparesHeaders (codec-ReadsBack (published_of codec surroundings starts datagrams))

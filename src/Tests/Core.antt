-- ===== src/Tests/Core.antt =====
-- Runs of the UDP server, the validator, the registry and the trace keys.
use rtls_stream_visualizer.Base.{
  String, ◌≡◌, refl, Option, none, some, [], ◌∷◌, true, false, ap, sym,
}
use mathlib.Core.Option.{some-injective}
use rtls_stream_visualizer.Base.Int.{pos}
use rtls_stream_visualizer.Base.Dict
use rtls_stream_visualizer.Base.Raise.{Exception}
use rtls_stream_visualizer.Python.Value.{obj}
use rtls_stream_visualizer.Python.Runtime.{malformed}
use rtls_stream_visualizer.Core.Envelope.{Builder, default_registry, v1_builder}
use rtls_stream_visualizer.Core.Tracing.{strip_trace_keys}
use rtls_stream_visualizer.Core.Validate.{Validator}
use rtls_stream_visualizer.Core.Server.State.{UdpServer, Datagram, datagram, socket_error, Served}
use rtls_stream_visualizer.Core.Server.{handle, serve_forever}
use rtls_stream_visualizer.Core.Server.Loop.{IsQuiet, add_all, serve_forever_lem}
use rtls_stream_visualizer.Core.Tracing.Propagator.{Headers, Telemetry}
use rtls_stream_visualizer.Tests.Sample.{sample}

-- The one context sets these headers.
abbrev pub one_context : Headers → Telemetry
one_context headers = record {
  Context = Unit;
  current = tt;
  is_empty = λ c. false;
  start_span = λ c. tt;
  propagator = record { injected = λ c. headers; extracted = λ f. tt };
}

abbrev pub server : UdpServer String
server = record {
  topic = "rtls.events";
  validator = none;
  has_parser = true;
  json_normalizer = some "some-device";
  envelope_version = "1.0";
  envelope_registry = default_registry;
  event_type = "position";
  telemetry = one_context (("traceparent", "00-2") ∷ []);
  on_decode_error = some (λ e. none);
}

abbrev pub json_datagram : Datagram String
json_datagram = record {
  decoded = some "{doc}";
  loaded_data = malformed "bytes";
  source_ip = "10.0.0.7";
  source_port = "4242";
  normalized_at_ms = pos 8;
  ingested_at_ms = pos 9;
  publish_error = none;
}

abbrev broken_datagram : Datagram String
broken_datagram = record json_datagram { decoded = none }

server-IsQuiet : IsQuiet server
server-IsQuiet = record {
  returns = λ callback e set.
      ap (λ (f : Exception → Option Exception). f e) (sym (some-injective _ _ set));
}

abbrev nothing_served : Served
nothing_served = record { published = []; failures = []; escaped = none; ended = false }

serve_forever_lem_example :
    serve_forever sample server nothing_served (
      datagram json_datagram
      ∷ datagram broken_datagram
      ∷ socket_error
      ∷ datagram json_datagram
      ∷ [])
    ≡ (record (add_all nothing_served
        (handle sample server json_datagram ∷ handle sample server broken_datagram ∷ [])) {
          ended = true;
        })
serve_forever_lem_example =
    serve_forever_lem sample server server-IsQuiet nothing_served
      (json_datagram ∷ broken_datagram ∷ []) (datagram json_datagram ∷ []) refl

-- A schema that wants an object.
abbrev pub validator : Validator String
validator = record {
  origin = "some-device";
  schema_errors =
      λ v. elim v [ obj fs ↦ [] | other ↦ record { keys = []; message = "no object" } ∷ [] ];
}

abbrev carried : Dict.Dict String
carried = ("traceparent", "00-1") ∷ ("x", "1") ∷ ("tracestate", "s") ∷ []

strip_run : strip_trace_keys carried ≡ ("x", "1") ∷ []
unfolding strip_trace_keys Dict.pop
strip_run = refl

abbrev other_builder : Builder String
other_builder = record v1_builder { schema_version = "2.0" }

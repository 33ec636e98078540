-- ===== src/Tests/Traces.antt =====
-- A trace that goes from an object of the generator to the backend.
use Prim.Native.String.{◌∷◌ as push}
use rtls_stream_visualizer.Base.{String, false, Option, some, List, [], ◌∷◌}
use rtls_stream_visualizer.Base.Dict
use rtls_stream_visualizer.Python.Value.{obj, of_entries, str}
use rtls_stream_visualizer.Python.Runtime.{loaded}
use rtls_stream_visualizer.Core.Tracing.Propagator.{Propagator, Telemetry}
use rtls_stream_visualizer.Core.Server.State.{UdpServer, Datagram}
use rtls_stream_visualizer.Runner.Generator.{inject}
use rtls_stream_visualizer.Tests.Core.{server, json_datagram}

abbrev parent_in : Option (List String) → String
parent_in (some (s ∷ [])) = s
parent_in found = ""

-- A context is the text of its traceparent.
abbrev propagator : Propagator String
propagator = record {
  injected = λ c. ("traceparent", c) ∷ [];
  extracted = λ f. parent_in (f "traceparent");
}

-- A span's context names that in which it was started.
abbrev telemetry : Telemetry
telemetry = record {
  Context = String;
  current = "root";
  is_empty = λ c. false;
  start_span = λ c. push "s" c;
  propagator = propagator;
}

abbrev tracing_server : UdpServer String
tracing_server = record server { telemetry = telemetry }

abbrev traced_datagram : Datagram String
traced_datagram = record json_datagram {
  loaded_data =
      loaded (obj (of_entries (inject (("x", str "1") ∷ []) (propagator.injected "00-7"))));
}

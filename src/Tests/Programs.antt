-- ===== src/Tests/Programs.antt =====
-- Runs of the receiver, the generator and the HTTP middleware.
use rtls_stream_visualizer.Base.{
  ℕ, String, ◌≡◌, refl, false, Option, none, some, List, [], ◌∷◌, map, eqb, arith, if◌then◌else◌,
}
use rtls_stream_visualizer.Base.Int.{pos}
use rtls_stream_visualizer.Base.Raise.{Exception, ok, raise, value_error, os_error}
use rtls_stream_visualizer.Python.Value.{str, obj, entries, of_entries, int, integer}
use rtls_stream_visualizer.Core.Config.Types.{AppConfig, under_root}
use rtls_stream_visualizer.Core.Server.State.{datagram, socket_error}
use rtls_stream_visualizer.Backend.Monitor.{
  HttpRequest, HttpMetrics, serve, counted, add_counts, serve-counted,
}
use rtls_stream_visualizer.Core.Client.Batches.{Sends}
use rtls_stream_visualizer.Core.Validate.{
  get_validated_objects_from_file, add_lines, add_line, get_validated_object, check_loaded,
  accept_if, add_checked,
}
use rtls_stream_visualizer.Python.Text.{strip, lstrip, rstrip, is_space}
use rtls_stream_visualizer.Runner.Generator.{inject}
use rtls_stream_visualizer.Runner.Generator.Program as Program
use rtls_stream_visualizer.Runner.Generator.Program.{nothing_sent, as_dicts}
use rtls_stream_visualizer.Runner.Generator.Streams.{main-Sends}
use rtls_stream_visualizer.Runner.Receiver.{Surroundings}
use rtls_stream_visualizer.Tests.Sample.{sample, doc}
use rtls_stream_visualizer.Tests.Core.{one_context, json_datagram, validator}
use rtls_stream_visualizer.Tests.Running.{rabbitmq, all_answered}

abbrev pub app_config : AppConfig String
app_config = record {
  validation = record { origin = "some-device"; schema_path = under_root "config/schema.json" };
  logging = record { level = str "INFO"; format = str "" };
  udp_server = record { ip = str "0.0.0.0"; port = integer (int (pos 9999)); topic = "" };
  envelope_version = "1.0";
  rabbitmq = rabbitmq;
  backend = record { host = "0.0.0.0"; port = int (pos 8000) };
  dsn = "";
}

abbrev surroundings : Surroundings String
surroundings = record {
  config = ok app_config;
  metrics = ok tt;
  answers = all_answered;
  schema = ok (λ v. []);
  bound = ok tt;
  telemetry = one_context [];
  received = datagram json_datagram ∷ socket_error ∷ [];
}

abbrev requests : List HttpRequest
requests =
    record { method = "GET"; path = "/metrics"; response = ok 200 }
    ∷ record { method = "GET"; path = "/health"; response = ok 503 }
    ∷ record { method = "GET"; path = "/api/v1/x"; response = raise value_error }
    ∷ []

abbrev no_metrics : HttpMetrics
no_metrics = record { request_latency = []; request_count = [] }

serve-counted_example : serve requests no_metrics ≡ add_counts (counted requests) no_metrics
serve-counted_example = serve-counted requests no_metrics

abbrev sendto : ℕ → Option Exception
sendto n = if eqb n 1 then some os_error else none

abbrev source : List String
source = "{doc}" ∷ "nonsense" ∷ "{doc}" ∷ []

source_run :
    get_validated_objects_from_file sample validator source
    ≡ ok (
      record { origin = "some-device"; content = obj doc }
          ∷ record { origin = "some-device"; content = obj doc }
          ∷ [],
      record { path = ""; line_no = 2; message = "Invalid JSON: no JSON" } ∷ [],
    )
unfolding get_validated_objects_from_file add_lines add_line get_validated_object check_loaded
    accept_if add_checked strip lstrip rstrip is_space
source_run = refl

main-Sends_example :
    Sends sample sendto
      (map
        (λ d. obj (of_entries (inject d (("traceparent", "00-1") ∷ []))))
        (entries doc ∷ entries doc ∷ []))
      nothing_sent
      (
        (Program.main sample sendto
            (ok app_config)
            (ok validator.schema_errors)
            (("traceparent", "00-1") ∷ [])
            source
            "10.0.0.9"
            (pos 9999)
            2
            (pos 1)).result,
        (Program.main sample sendto
            (ok app_config)
            (ok validator.schema_errors)
            (("traceparent", "00-1") ∷ [])
            source
            "10.0.0.9"
            (pos 9999)
            2
            (pos 1)).sent,
      )
    × ((Program.main sample sendto
          (ok app_config)
          (ok validator.schema_errors)
          (("traceparent", "00-1") ∷ [])
          source
          "10.0.0.9"
          (pos 9999)
          2
          (pos 1)).client
        ≡ some (record { ip = "10.0.0.9"; port = pos 9999; is_open = false }))
unfolding as_dicts
main-Sends_example =
    main-Sends sample sendto (ok app_config) (ok validator.schema_errors) validator
      (("traceparent", "00-1") ∷ []) source "10.0.0.9" (pos 9999)
      (record { origin = "some-device"; content = obj doc }
        ∷ record { origin = "some-device"; content = obj doc }
        ∷ [])
      (record { path = ""; line_no = 2; message = "Invalid JSON: no JSON" } ∷ [])
      (entries doc ∷ entries doc ∷ []) 2 (pos 1) refl source_run refl (omega arith) refl

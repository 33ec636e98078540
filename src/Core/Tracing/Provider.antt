-- ===== src/Core/Tracing/Provider.antt =====
-- core/tracing.py: where spans are exported to, and the carrier that a context is extracted from.
use Prim.Native.String.{[] as nil, ◌∷◌ as cons}
use rtls_stream_visualizer.Base.{String, ◌≡◌, refl, ap, Option, none, some, []}
use rtls_stream_visualizer.Base.Dict
use rtls_stream_visualizer.Base.Dict.{Dict}

-- OTLPSpanExporter with its endpoint, or ConsoleSpanExporter.
pub data Exporter : Type 0 where
  otlp_exporter : String → Exporter
  console_exporter : Exporter

pub record TracerProvider : Type 0 where
  pub service_name : String
  pub exporter : Exporter

-- `text or None`
abbrev or_nothing : Option String → Option String
or_nothing none = none
or_nothing (some nil) = none
or_nothing (some (cons c s)) = some (cons c s)

unfoldable pub get_otlp_endpoint : Dict String → Option String
get_otlp_endpoint environ = or_nothing (Dict.get environ "OTEL_EXPORTER_OTLP_ENDPOINT")

-- The empty text counts as none.
abbrev exporter_for : Option String → Exporter
exporter_for none = console_exporter
exporter_for (some nil) = console_exporter
exporter_for (some (cons c s)) = otlp_exporter (cons c s)

-- The provider that `init_tracing` registers.
unfoldable pub init_tracing : String → Option String → TracerProvider
init_tracing service_name otlp_endpoint = record {
  service_name = service_name;
  exporter = exporter_for otlp_endpoint;
}

-- What `extract_from_headers` hands to the propagator: `dict(headers) if headers else {}`.
unfoldable pub header_carrier {ℓ} : {V : Type ℓ} → Option (Dict V) → Dict V
header_carrier none = []
header_carrier (some headers) = headers

exporter-or_nothing : (found : Option String) → exporter_for (or_nothing found) ≡ exporter_for found
exporter-or_nothing none = refl
exporter-or_nothing (some nil) = refl
exporter-or_nothing (some (cons c s)) = refl

-- A program that starts with the endpoint of its environment exports as if the variable itself had
-- been given.
init_tracing-get_otlp_endpoint :
    (service_name : String) (environ : Dict String)
    → init_tracing service_name (get_otlp_endpoint environ)
      ≡ init_tracing service_name (Dict.get environ "OTEL_EXPORTER_OTLP_ENDPOINT")
unfolding init_tracing get_otlp_endpoint
init_tracing-get_otlp_endpoint service_name environ =
    ap (λ e. record { service_name = service_name; exporter = e })
      (exporter-or_nothing (Dict.get environ "OTEL_EXPORTER_OTLP_ENDPOINT"))

-- ===== src/Core/Logging.antt =====
-- core/logging_config.py: the handlers of the root logger, and the ids of the current span that are
-- put into each record.
pub mod Hex
pub mod Digits
pub mod Setup
use rtls_stream_visualizer.Base.{
  ℕ, ◌+◌, ◌-◌, ◌/◌, ◌%◌, String, Char, Bool, not, ◌&&◌, ◌==◌, Option, none, some, List, [], ◌∷◌,
  eqb, if◌then◌else◌,
}
use rtls_stream_visualizer.Base.Int.{ℤ}
use rtls_stream_visualizer.Base.Dict.{Dict}
use rtls_stream_visualizer.Python.Runtime.{Runtime, lower}
use rtls_stream_visualizer.Core.Config.{getenv}
use rtls_stream_visualizer.Core.Logging.Hex.{format_hex}

-- The ids of `span.get_span_context()`; those of no span are 0.
pub record SpanContext : Type 0 where
  pub trace_id : ℕ
  pub span_id : ℕ

-- The fields that the filter adds to a log record.
pub record TraceFields : Type 0 where
  pub trace_id : String
  pub span_id : String

-- `_TraceInjectFilter.filter`, which lets every record pass.
unfoldable pub inject_trace : SpanContext → TraceFields
inject_trace ctx =
    if eqb ctx.trace_id 0
    then (record { trace_id = "00000000000000000000000000000000"; span_id = "0000000000000000" })
    else (record { trace_id = format_hex 32 ctx.trace_id; span_id = format_hex 16 ctx.span_id })

pub data Formatter : Type 0 where
  json_formatter text_formatter : Formatter

-- The stream handler that `setup_logging` makes, with the filter above.
pub record LogHandler : Type 0 where
  pub level : ℤ
  pub formatter : Formatter

pub record RootLogger : Type 0 where
  pub level : ℤ
  pub handlers : List LogHandler

module _ (R : Runtime) where
  -- `os.environ.get("LOG_FORMAT", "").lower() == "json"`, unless the caller says.
  abbrev pub wants_json : Dict String → Option Bool → Bool
  wants_json environ (some json_format) = json_format
  wants_json environ none = lower R (getenv environ "LOG_FORMAT" "") == "json"

  abbrev pub formatter_of : Bool → Formatter
  formatter_of json_format = if json_format then json_formatter else text_formatter

  abbrev pub add_handler : Dict String → ℤ → Option Bool → List LogHandler → List LogHandler
  add_handler environ level json_format [] =
      record { level = level; formatter = formatter_of (wants_json environ json_format) } ∷ []
  add_handler environ level json_format (handler ∷ handlers) = handler ∷ handlers

  unfoldable pub setup_logging : Dict String → ℤ → Option Bool → RootLogger → RootLogger
  setup_logging environ level json_format root = record {
    level = level;
    handlers = add_handler environ level json_format root.handlers;
  }

-- ===== src/Core/Server.antt =====
-- core/udp/server.py: from a datagram to a message on the broker.
pub mod State
pub mod Loop
pub mod Delivery
pub mod Payload
use rtls_stream_visualizer.Core.Server.State.{
  UdpServer, Datagram, Published, Received, datagram, socket_error, Served,
}
use rtls_stream_visualizer.Base.{
  String, Bool, true, false, ◌&&◌, Option, none, some, List, [], ◌∷◌, ◌++◌, if◌then◌else◌,
}
use rtls_stream_visualizer.Base.Int.{ℤ}
use rtls_stream_visualizer.Base.Dict
use rtls_stream_visualizer.Base.Dict.{Dict}
use rtls_stream_visualizer.Base.Raise.{
  Exception, Exc, ok, raise, value_error, unicode_error, json_error, ◌>>=◌,
}
use rtls_stream_visualizer.Python.Value.{Value, str, obj, Fields, entries, of_entries, lookup}
use rtls_stream_visualizer.Python.Runtime.{Runtime, Loaded, loaded, malformed, failed}
use rtls_stream_visualizer.Handler.Event.{NormalizedEvent, as_dict}
use rtls_stream_visualizer.Handler.Ls1000.Messages.{Parsed}
use rtls_stream_visualizer.Handler.Ls1000.{parse_message}
use rtls_stream_visualizer.Handler.Normalizer.{normalize}
use rtls_stream_visualizer.Core.Envelope.{Context, Builder, Registry, get_builder}
use rtls_stream_visualizer.Core.Tracing.{strip_trace_keys}
use rtls_stream_visualizer.Core.Tracing.Propagator.{Headers, extract_from_dict, inject_into_headers}
use mathlib.Core.Option
use rtls_stream_visualizer.Core.Validate.{Validator, ValidatedObject, Checked, get_validated_object}

module _ {F : Type 0} where
  with_traceparent : Fields F → Option (Value F) → Option (Dict (Value F))
  with_traceparent fs none = none
  with_traceparent fs (some v) = some (entries fs)

  -- The carrier of `_extract_trace_context`.
  unfoldable pub extract_trace_context : Loaded F → Option (Dict (Value F))
  unfolding with_traceparent
  extract_trace_context (loaded (obj fs)) = with_traceparent fs (lookup fs "traceparent")
  extract_trace_context l = none

  abbrev is_dict : Value F → Bool
  is_dict (obj fs) = true
  is_dict v = false

  abbrev or_str : Option (Value F) → String → Value F
  or_str none s = str s
  or_str (some v) s = v

  -- headers.get("origin", payload.get("origin", "unknown"))
  abbrev origin_or : Option String → Value F → Value F
  origin_or (some s) v = str s
  origin_or none v = v

  unfoldable pub origin_of : Value F → Headers → Value F
  origin_of (obj fs) headers =
      origin_or (Dict.get headers "origin") (or_str (lookup fs "origin") "unknown")
  origin_of payload headers = str "unknown"

  unfoldable pub is_normalized : Value F → Bool
  is_normalized (obj fs) = Dict.has (entries fs) "tag_id" && Dict.has (entries fs) "ts_utc_ms"
  is_normalized payload = false

  -- asdict(event), as a JSON object
  abbrev pub payload_of : NormalizedEvent F → Value F
  payload_of e = obj (of_entries (as_dict e))

  -- headers = {"source_ip": addr[0], "source_port": str(addr[1])}
  abbrev pub first_headers : Datagram F → Headers
  first_headers d = ("source_ip", d.source_ip) ∷ ("source_port", d.source_port) ∷ []

module _ (R : Runtime) (server : UdpServer R.Float) where
  -- `_strip_trace_from_string`: a JSONDecodeError and a UnicodeDecodeError are caught.
  unfoldable pub strip_loaded : String → Loaded R.Float → Exc String
  strip_loaded decoded (loaded (obj fs)) =
      ok (R.dumps (obj (of_entries (strip_trace_keys (entries fs)))))
  strip_loaded decoded (loaded v) = ok decoded
  strip_loaded decoded (malformed reason) = ok decoded
  strip_loaded decoded (failed unicode_error) = ok decoded
  strip_loaded decoded (failed e) = raise e

  unfoldable pub strip_trace_from_string : String → Exc String
  unfolding strip_loaded
  strip_trace_from_string decoded = strip_loaded decoded (R.loads decoded)

  -- The headers that mark a message of the LS-1000 parser.
  unfoldable pub accept_parsed : Headers → Parsed R.Float → Option (Value R.Float × Headers)
  accept_parsed headers (none, error) = none
  accept_parsed headers (some e, error) =
      some (payload_of e, Dict.set (Dict.set headers "origin" "ls-1000") "parser" "ls1000")

  unfoldable pub try_parse_ls1000 : String → Headers → Exc (Option (Value R.Float × Headers))
  unfolding accept_parsed
  try_parse_ls1000 decoded headers =
      if server.has_parser
      then (do parsed ← parse_message R decoded; ok (accept_parsed headers parsed))
      else ok none

  unfoldable pub raw_of_loaded : Loaded R.Float → Exc (Value R.Float × String)
  raw_of_loaded (loaded v) = ok (v, "json")
  raw_of_loaded (malformed reason) = raise json_error
  raw_of_loaded (failed e) = raise e

  unfoldable pub validated_or_raise : Checked R.Float → Exc (Value R.Float × String)
  validated_or_raise (none, errors) = raise value_error
  validated_or_raise (some v, errors) = ok (v.content, v.origin)

  -- The value of a cleaned text and its origin, validated if there is a validator.
  unfoldable pub read_payload : Option (Validator R.Float) → String → Exc (Value R.Float × String)
  unfolding raw_of_loaded validated_or_raise
  read_payload none cleaned = raw_of_loaded (R.loads cleaned)
  read_payload (some validator) cleaned = do
    checked ← get_validated_object R validator cleaned 1
    validated_or_raise checked

  unfoldable pub event_or_raise :
      Headers → Option (NormalizedEvent R.Float) → Exc (Value R.Float × Headers)
  event_or_raise headers none = raise value_error
  event_or_raise headers (some e) = ok (payload_of e, Dict.set headers "parser" "json-normalizer")

  -- The payload through the normalizer, if there is one.
  unfoldable pub through_normalizer :
      Option String → ℤ → String → Value R.Float → Headers → Exc (Value R.Float × Headers)
  unfolding event_or_raise
  through_normalizer none now decoded raw_json headers = ok (raw_json, headers)
  through_normalizer (some origin) now decoded raw_json headers = do
    normalized ← normalize R origin now raw_json decoded
    event_or_raise headers normalized

  unfoldable pub normalize_json_payload : ℤ → String → Headers → Exc (Value R.Float × Headers)
  unfolding read_payload through_normalizer
  normalize_json_payload now decoded headers = do
    cleaned ← strip_trace_from_string decoded
    (raw_json, origin) ← read_payload server.validator cleaned
    through_normalizer server.json_normalizer now decoded raw_json
        (Dict.set headers "origin" origin)

  -- The parser's answer if it accepted the text, else the JSON path.
  unfoldable pub parsed_or_json :
      ℤ → String → Headers → Option (Value R.Float × Headers) → Exc (Value R.Float × Headers)
  parsed_or_json now decoded headers (some answer) = ok answer
  parsed_or_json now decoded headers none = normalize_json_payload now decoded headers

  unfoldable pub process_text : ℤ → String → Headers → Exc (Value R.Float × Headers)
  unfolding parsed_or_json
  process_text now decoded headers = do
    found ← try_parse_ls1000 decoded headers
    parsed_or_json now decoded headers found

  unfoldable pub process_datagram : Datagram R.Float → Headers → Exc (Value R.Float × Headers)
  unfolding process_text
  process_datagram d headers = elim d.decoded [
    | none ↦ raise unicode_error
    | some text ↦ process_text d.normalized_at_ms text headers
  ]

  unfoldable pub build_envelope : ℤ → Value R.Float → Headers → Exc (Dict (Value R.Float))
  build_envelope now payload headers = do
    builder ← get_builder server.envelope_registry server.envelope_version
    ok (
        builder.build payload (record {
          schema_version = server.envelope_version;
          event_type = server.event_type;
          origin = origin_of payload headers;
          normalized = is_normalized payload;
          ingested_at_ms = now;
        }))

  unfoldable pub published_or_raise : Option Exception → Published → Exc Published
  published_or_raise none p = ok p
  published_or_raise (some e) p = raise e

  -- `_extract_trace_context`
  abbrev pub parent_context : Loaded R.Float → Option server.telemetry.Context
  parent_context l =
      Option.map (extract_from_dict server.telemetry.propagator R) (extract_trace_context l)

  -- The context once the parent is attached, if there is one that is not empty.
  unfoldable pub attached : Option server.telemetry.Context → server.telemetry.Context
  attached none = server.telemetry.current
  attached (some parent) =
      if server.telemetry.is_empty parent then server.telemetry.current else parent

  -- The context in the span of a datagram.
  abbrev pub span_context : Loaded R.Float → server.telemetry.Context
  span_context l = server.telemetry.start_span (attached (parent_context l))

  -- The `try` block of `serve_forever`; what it returns is what reached the broker.
  unfoldable pub handle : Datagram R.Float → Exc Published
  unfolding published_or_raise
  handle d = do
    (payload, headers) ← process_datagram d (first_headers d)
    envelope ← build_envelope d.ingested_at_ms payload headers
    published_or_raise d.publish_error (record {
      topic = server.topic;
      message = R.dumps (obj (of_entries envelope));
      headers =
          inject_into_headers server.telemetry.propagator (span_context d.loaded_data) headers;
    })

  -- `_handle_processing_error`: the exception that the callback lets out, if it is called.
  unfoldable pub handle_processing_error : Exception → Option Exception
  handle_processing_error e = elim server.on_decode_error [
    | none ↦ none
    | some callback ↦ callback e
  ]

  -- The end of a round: the message was published, or the handler of the failure runs.
  unfoldable pub absorb : Served → Exc Published → Served
  absorb state (ok p) = record state { published = state.published ++ p ∷ [] }
  absorb state (raise e) = record state {
    failures = state.failures ++ e ∷ [];
    escaped = handle_processing_error e;
  }

  -- One round of the loop.
  unfoldable pub serve_one : Served → Datagram R.Float → Served
  unfolding absorb
  serve_one state d = absorb state (handle d)

  -- The loop over what the socket gives; at the end of the list it waits for more.
  unfoldable pub serve_forever : Served → List (Received R.Float) → Served
  serve_forever state [] = state
  serve_forever state (socket_error ∷ more) = record state { ended = true }
  serve_forever state (datagram d ∷ more) =
      let next = serve_one state d in
      let rest = serve_forever next more in elim next.escaped [ none ↦ rest | some e ↦ next ]

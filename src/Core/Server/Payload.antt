-- ===== src/Core/Server/Payload.antt =====
-- What a datagram's payload and headers are when it gets as far as the broker.
use rtls_stream_visualizer.Base.{
  String, ◌≡◌, refl, sym, subst, ◌⊎◌, Option, none, some, inl, inr, Option-cases, Bool-cases,
}
use rtls_stream_visualizer.Base.Int.{ℤ}
use rtls_stream_visualizer.Base.Dict
use rtls_stream_visualizer.Base.Raise.{Exc, ok, raise, unicode_error, ◌>>=◌, Returns, Returns-bind}
use rtls_stream_visualizer.Python.Value.{Value, obj, Fields, entries, lookup}
use rtls_stream_visualizer.Python.Runtime.{Runtime, loaded}
use rtls_stream_visualizer.Handler.Event.{NormalizedEvent, ParseError}
use rtls_stream_visualizer.Handler.Ls1000.{parse_message}
use rtls_stream_visualizer.Handler.Ls1000.Messages.{Parsed}
use rtls_stream_visualizer.Handler.Normalizer.{normalize}
use rtls_stream_visualizer.Handler.Normalizer.Events.{IsJson, normalize-IsJson}
use rtls_stream_visualizer.Core.Tracing.Propagator.{Headers}
use rtls_stream_visualizer.Core.Server.State.{UdpServer, Datagram}
use rtls_stream_visualizer.Core.Server.{
  payload_of, accept_parsed, try_parse_ls1000, read_payload, through_normalizer,
  strip_trace_from_string, normalize_json_payload, process_text, process_datagram, first_headers,
  event_or_raise, parsed_or_json, extract_trace_context,
}

module _ (R : Runtime) where
  -- The parser of that name has made the event of the datagram's text.
  abbrev pub MadeBy : Datagram R.Float → String → NormalizedEvent R.Float → Type 0
  MadeBy d parser e =
      ((parser ≡ "ls1000")
        × ((text : String) × (error : Option ParseError) × (d.decoded ≡ some text)
            × (parse_message R text ≡ ok (some e, error))))
      ⊎ ((parser ≡ "json-normalizer") × (e.source_type ≡ "json"))

  -- A payload that was read from a datagram: an event, with the sender's address, an origin and the
  -- parser that made it in the headers, and no trace state.
  abbrev pub IsStamped : Datagram R.Float → Value R.Float × Headers → Type 0
  IsStamped d (payload, headers) =
      (e : NormalizedEvent R.Float) × (origin : String) × (payload ≡ payload_of e)
      × (Dict.get headers "origin" ≡ some origin)
      × (Dict.get headers "source_ip" ≡ some d.source_ip)
      × (Dict.get headers "source_port" ≡ some d.source_port)
      × ((parser : String) × (Dict.get headers "parser" ≡ some parser) × MadeBy d parser e)
      × (Dict.get headers "tracestate" ≡ none)

module _ (R : Runtime) (server : UdpServer R.Float) where
  event_or_raise-IsStamped :
      (d : Datagram R.Float) (origin : String) (found : Option (NormalizedEvent R.Float))
      → IsJson R found
      → Returns
          (IsStamped R d)
          (event_or_raise R server (Dict.set (first_headers d) "origin" origin) found)
  unfolding event_or_raise Dict.get Dict.set
  event_or_raise-IsStamped d origin none json = tt
  event_or_raise-IsStamped d origin (some e) json =
      (e, origin, refl, refl, refl, refl, ("json-normalizer", refl, inr (refl, json)), refl)

  module _ (name : String) (set_up : server.json_normalizer ≡ some name) where
    normalize_json_payload-IsStamped :
        (d : Datagram R.Float) (now : ℤ) (text : String)
        → Returns (IsStamped R d) (normalize_json_payload R server now text (first_headers d))
    unfolding normalize_json_payload through_normalizer
    normalize_json_payload-IsStamped d now text =
        Returns-bind _ (strip_trace_from_string R server text) _ λ cleaned _.
          Returns-bind _ (read_payload R server server.validator cleaned) _ λ (raw_json, origin) _.
            rw set_up (
              Returns-bind _ (normalize R name now raw_json text) _ λ found made.
                event_or_raise-IsStamped d origin found
                  (subst (Returns (IsJson R)) made (normalize-IsJson R name now raw_json text)))

    parsed_or_json-IsStamped :
        (d : Datagram R.Float) (now : ℤ) (text : String) (p : Parsed R.Float)
        → d.decoded ≡ some text
        → parse_message R text ≡ ok p
        → Returns (IsStamped R d) (
            parsed_or_json R server now text
              (first_headers d)
              (accept_parsed R server (first_headers d) p))
    unfolding parsed_or_json accept_parsed Dict.get Dict.set
    parsed_or_json-IsStamped d now text (none, error) decoded parsed =
        normalize_json_payload-IsStamped d now text
    parsed_or_json-IsStamped d now text (some e, error) decoded parsed = (
      e,
      "ls-1000",
      refl,
      refl,
      refl,
      refl,
      ("ls1000", refl, inl (refl, (text, error, decoded, parsed))),
      refl,
    )

    after_parser-IsStamped :
        (d : Datagram R.Float) (now : ℤ) (text : String) (m : Exc (Parsed R.Float))
        → d.decoded ≡ some text
        → parse_message R text ≡ m
        → Returns (IsStamped R d) (
            m >>= (λ p. ok (accept_parsed R server (first_headers d) p)) >>= λ found.
            parsed_or_json R server now text (first_headers d) found)
    after_parser-IsStamped d now text (ok p) decoded parsed =
        parsed_or_json-IsStamped d now text p decoded parsed
    after_parser-IsStamped d now text (raise e) decoded parsed = tt

    process_text-IsStamped :
        (d : Datagram R.Float) (now : ℤ) (text : String)
        → d.decoded ≡ some text
        → Returns (IsStamped R d) (process_text R server now text (first_headers d))
    unfolding process_text try_parse_ls1000 parsed_or_json
    process_text-IsStamped d now text decoded = elim (Bool-cases server.has_parser) [
      | inl e ↦ simp e (after_parser-IsStamped d now text (parse_message R text) decoded refl)
      | inr e ↦ simp e (normalize_json_payload-IsStamped d now text)
    ]

    process_datagram-run :
        (d : Datagram R.Float) (found : Option String)
        → d.decoded ≡ found
        → process_datagram R server d (first_headers d) ≡ elim found [
          | none ↦ raise unicode_error
          | some text ↦ process_text R server d.normalized_at_ms text (first_headers d)
        ]
    unfolding process_datagram
    process_datagram-run d found e =
        subst
          (λ found. process_datagram R server d (first_headers d) ≡ elim found [
            | none ↦ raise unicode_error
            | some text ↦ process_text R server d.normalized_at_ms text (first_headers d)
          ])
          e refl

    pub process_datagram-IsStamped :
        (d : Datagram R.Float)
        → Returns (IsStamped R d) (process_datagram R server d (first_headers d))
    process_datagram-IsStamped d = elim (Option-cases d.decoded) [
      | inl e ↦ subst (Returns (IsStamped R d)) (sym (process_datagram-run d none e)) tt
      | inr (text, e) ↦
          subst (Returns (IsStamped R d)) (sym (process_datagram-run d (some text) e))
            (process_text-IsStamped d d.normalized_at_ms text e)
    ]

-- A JSON object with a traceparent is the carrier of its trace context.
pub extract_trace_context-carrier :
    {F : Type 0} (fs : Fields F) (v : Value F)
    → lookup fs "traceparent" ≡ some v
    → extract_trace_context (loaded (obj fs)) ≡ some (entries fs)
unfolding extract_trace_context
extract_trace_context-carrier fs v found = rw found refl

-- ===== src/Core/Server/Delivery.antt =====
-- What `handle` puts on the broker.
use rtls_stream_visualizer.Base.{
  String, ◌≡◌, refl, ap₂, true, Option, none, some, [], ◌∷◌, arith, ◌∙◌, subst,
}
use rtls_stream_visualizer.Base.Int.{ℤ}
use rtls_stream_visualizer.Base.Dict
use rtls_stream_visualizer.Base.Dict.{Dict, get-set}
use rtls_stream_visualizer.Base.Raise.{Exception, ok, Returns, Returns-bind}
use rtls_stream_visualizer.Python.Value.{Value, str, obj, of_entries, entries-of_entries}
use rtls_stream_visualizer.Python.Runtime.{Runtime}
use rtls_stream_visualizer.Handler.Event.{NormalizedEvent, as_dict}
use rtls_stream_visualizer.Core.Envelope.{build_v1, default_registry, get_builder}
use rtls_stream_visualizer.Core.Envelope.Laws.{get_builder-default_registry}
use rtls_stream_visualizer.Core.Tracing.Propagator.{Headers, set_all}
use rtls_stream_visualizer.Core.Server.State.{UdpServer, Datagram, Published}
use rtls_stream_visualizer.Core.Server.{
  span_context, origin_of, is_normalized, payload_of, first_headers, process_datagram,
  build_envelope, published_or_raise, handle,
}
use rtls_stream_visualizer.Core.Server.Payload.{MadeBy, IsStamped, process_datagram-IsStamped}

-- The propagator sets none of the headers that the server itself sets.
pub record SparesHeaders {F : Type 0} (server : UdpServer F) : Type 0 where
  pub source_ip :
      (c : server.telemetry.Context)
      → Dict.get (server.telemetry.propagator.injected c) "source_ip" ≡ none
  pub source_port :
      (c : server.telemetry.Context)
      → Dict.get (server.telemetry.propagator.injected c) "source_port" ≡ none
  pub origin :
      (c : server.telemetry.Context)
      → Dict.get (server.telemetry.propagator.injected c) "origin" ≡ none
  pub parser :
      (c : server.telemetry.Context)
      → Dict.get (server.telemetry.propagator.injected c) "parser" ≡ none

get-set_all :
    (h more : Headers) (k : String)
    → Dict.get more k ≡ none
    → Dict.get (set_all h more) k ≡ Dict.get h k
unfolding set_all Dict.get
get-set_all h [] k absent = refl
get-set_all h ((j, v) ∷ more) k absent =
    ground (arith, get-set_all (Dict.set h j v) more k, get-set h j k v)

module _ {F : Type 0} where
  is_normalized-payload_of : (e : NormalizedEvent F) → is_normalized (payload_of e) ≡ true
  unfolding is_normalized
  is_normalized-payload_of e = rw entries-of_entries (unfold as_dict Dict.get in refl)

  origin_of-payload_of :
      (e : NormalizedEvent F) (h : Headers) (o : String)
      → Dict.get h "origin" ≡ some o
      → origin_of (payload_of e) h ≡ str o
  unfolding origin_of
  origin_of-payload_of e h o found = rw found

-- The envelope of an event, of version 1.0.
abbrev pub envelope_of :
    {F : Type 0} → UdpServer F → Datagram F → NormalizedEvent F → String → Dict (Value F)
envelope_of server d e origin = build_v1 (payload_of e) (record {
  schema_version = server.envelope_version;
  event_type = server.event_type;
  origin = str origin;
  normalized = true;
  ingested_at_ms = d.ingested_at_ms;
})

module _ (R : Runtime) (server : UdpServer R.Float) where
  -- A published message: the envelope of an event, normalized, whose origin is the one in the headers,
  -- on the server's topic, with the sender's address and the name of the parser that made the event.
  abbrev pub Delivers : Datagram R.Float → Published → Type 0
  Delivers d p =
      (e : NormalizedEvent R.Float) × (origin : String) × (p.topic ≡ server.topic)
      × (p.message ≡ R.dumps (obj (of_entries (envelope_of server d e origin))))
      × (Dict.get p.headers "origin" ≡ some origin)
      × ((parser : String) × (Dict.get p.headers "parser" ≡ some parser) × MadeBy R d parser e)
      × (Dict.get p.headers "source_ip" ≡ some d.source_ip)
      × (Dict.get p.headers "source_port" ≡ some d.source_port)

  build_envelope-payload_of :
      (now : ℤ) (e : NormalizedEvent R.Float) (h : Headers) (o : String)
      → server.envelope_registry ≡ default_registry
      → server.envelope_version ≡ "1.0"
      → Dict.get h "origin" ≡ some o
      → build_envelope R server now (payload_of e) h
        ≡ ok (
            build_v1 (payload_of e) (record {
              schema_version = server.envelope_version;
              event_type = server.event_type;
              origin = str o;
              normalized = true;
              ingested_at_ms = now;
            }))
  unfolding build_envelope
  build_envelope-payload_of now e h o registry version found = rw (
    ap₂ get_builder registry version ∙ get_builder-default_registry "1.0",
    origin_of-payload_of e h o found,
    is_normalized-payload_of e,
  )

  published_or_raise-Delivers :
      (d : Datagram R.Float) (error : Option Exception) (p : Published)
      → Delivers d p
      → Returns (Delivers d) (published_or_raise R server error p)
  unfolding published_or_raise
  published_or_raise-Delivers d none p h = h
  published_or_raise-Delivers d (some e) p h = tt

  pub handle-Delivers :
      (name : String) (d : Datagram R.Float)
      → server.json_normalizer ≡ some name
      → server.envelope_registry ≡ default_registry
      → server.envelope_version ≡ "1.0"
      → SparesHeaders server
      → Returns (Delivers d) (handle R server d)
  unfolding handle
  handle-Delivers name d set_up registry version spares =
      Returns-bind _ (process_datagram R server d (first_headers d)) _ λ (payload, h) made.
        let (e, o, same, origin, ip, port, (parser, named, made_by), _) =
          subst (Returns (IsStamped R d)) made
            (process_datagram-IsStamped R server name set_up d) in
        let c = span_context R server d.loaded_data in
        rw (same, build_envelope-payload_of d.ingested_at_ms e h o registry version origin)
          (published_or_raise-Delivers d d.publish_error _ (
            e,
            o,
            refl,
            refl,
            get-set_all h (server.telemetry.propagator.injected c) "origin" (spares.origin c)
                ∙ origin,
            (
              parser,
              get-set_all h (server.telemetry.propagator.injected c) "parser" (spares.parser c)
                  ∙ named,
              made_by,
            ),
            get-set_all h (server.telemetry.propagator.injected c) "source_ip" (spares.source_ip c)
                ∙ ip,
            get-set_all h (server.telemetry.propagator.injected c) "source_port"
                  (spares.source_port c)
                ∙ port,
          ))

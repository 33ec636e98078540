-- ===== src/Runner/Receiver/Wired.antt =====
-- What the receiver puts on the exchange, and what it closes.
use mathlib.Core.List.{map-append}
use rtls_stream_visualizer.Base.{
  ◌≡◌, refl, sym, ap, ◌∙◌, subst, true, false, Option, none, some, Option-cases, inl, inr, List, [],
  ◌∷◌, ◌++◌, map,
}
use rtls_stream_visualizer.Base.Raise.{Exception, Exc, ok, raise, ◌>>=◌}
use rtls_stream_visualizer.Python.Runtime.{Runtime}
use rtls_stream_visualizer.Core.Config.Types.{RabbitMqConfig, AppConfig}
use rtls_stream_visualizer.Core.Broker.{AmqpMessage, amqp_message}
use rtls_stream_visualizer.Core.Broker.Calls.{
  Answers, AllAnswered, make-AllAnswered, close_channel, close_connection,
}
use rtls_stream_visualizer.Core.Broker.Publisher.{
  Publisher, publish, close, new_publisher, connect_calls,
}
use rtls_stream_visualizer.Core.Broker.Publisher.Closed.{close_running}
use rtls_stream_visualizer.Core.Validate.{SchemaError}
use rtls_stream_visualizer.Core.Tracing.Propagator.{Headers, inject_into_headers}
use rtls_stream_visualizer.Core.Server.State.{
  UdpServer, Datagram, Published, Received, datagram, socket_error, Served,
}
use rtls_stream_visualizer.Base.Dict.{Dict}
use rtls_stream_visualizer.Python.Value.{Value, obj, of_entries}
use rtls_stream_visualizer.Core.Server.{
  span_context, first_headers, build_envelope, handle, serve_one, serve_forever, absorb,
  process_datagram, published_or_raise,
}
use rtls_stream_visualizer.Runner.Receiver.{
  Surroundings, Receiver, nothing_served, is_over, server_of, attempted, publish_attempt,
  serve_with, shut_down, start_udp,
}

-- A published message, as the exchange gets it.
abbrev pub as_amqp : RabbitMqConfig → Published → AmqpMessage
as_amqp config p = amqp_message config.routing_key p.topic p.message (some p.headers)

-- The exchange has what the server counts as published.
abbrev pub Matches : RabbitMqConfig → Served → Publisher → Type 0
Matches config served p =
    (p.delivered ≡ map (as_amqp config) served.published) × (p.is_running ≡ true)

module _ {A B : Type 0} (last : Published → Exc Published) (f : A → B → Published) where
  publish_last :
      (a : A) (m : Exc B) → (m >>= λ b. last (f a b)) ≡ ((m >>= λ b. ok (f a b)) >>= last)
  publish_last a (ok b) = refl
  publish_last a (raise e) = refl

  -- What comes last in a block may as well come after it.
  publish_after :
      (m : Exc A) (build : A → Exc B)
      → (m >>= λ a. build a >>= λ b. last (f a b))
        ≡ ((m >>= λ a. build a >>= λ b. ok (f a b)) >>= last)
  publish_after (ok a) build = publish_last a (build a)
  publish_after (raise e) build = refl

module _ (R : Runtime) (server : UdpServer R.Float) (config : RabbitMqConfig) where
  handle-attempted :
      (d : Datagram R.Float)
      → handle R server d ≡ (attempted R server d >>= published_or_raise R server d.publish_error)
  unfolding handle published_or_raise process_datagram
  handle-attempted d =
      publish_after (published_or_raise R server d.publish_error)
        (λ (x : Value R.Float × Headers) (envelope : Dict (Value R.Float)). record {
          topic = server.topic;
          message = R.dumps (obj (of_entries envelope));
          headers =
              inject_into_headers server.telemetry.propagator (span_context R server d.loaded_data)
                x.1;
        })
        (process_datagram R server d (first_headers d))
        (λ x. build_envelope R server d.ingested_at_ms x.0 x.1)

  absorb-Matches :
      (error : Option Exception) (r : Exc Published) (s : Served) (p : Publisher)
      → Matches config s p
      → Matches config
          (absorb R server s (r >>= published_or_raise R server error))
          (publish_attempt R config error r p)
  unfolding absorb published_or_raise publish
  absorb-Matches error (raise e) s p h = h
  absorb-Matches none (ok m) s p (same, running) = rw running (
    ap (λ l. l ++ as_amqp config m ∷ []) same
        ∙ sym (map-append (as_amqp config) s.published (m ∷ [])),
    refl,
  )
  absorb-Matches (some e) (ok m) s p (same, running) = rw running (same, refl)

  serve_one-Matches :
      (d : Datagram R.Float) (s : Served) (p : Publisher)
      → Matches config s p
      → Matches config
          (serve_one R server s d)
          (publish_attempt R config d.publish_error (attempted R server d) p)
  unfolding serve_one
  serve_one-Matches d s p h =
      subst
        (λ r.
          Matches config (absorb R server s r)
            (publish_attempt R config d.publish_error (attempted R server d) p))
        (sym (handle-attempted d)) (absorb-Matches d.publish_error (attempted R server d) s p h)

  -- With its publisher's state the server does what it does without, and at every point the exchange
  -- has exactly the messages that the server has published, in order.
  pub serve_with-Matches :
      (rs : List (Received R.Float)) (s : Served) (p : Publisher)
      → Matches config s p
      → ((serve_with R server config s p rs).0 ≡ serve_forever R server s rs)
        × Matches config (serve_with R server config s p rs).0 (serve_with R server config s p rs).1
  unfolding serve_with serve_forever
  serve_with-Matches [] s p h = (refl, h)
  serve_with-Matches (socket_error ∷ more) s p h = (refl, h)
  serve_with-Matches (datagram d ∷ more) s p h =
      let next = serve_one R server s d in
      let sent = publish_attempt R config d.publish_error (attempted R server d) p in
      let matches = serve_one-Matches d s p h in
      elim (Option-cases next.escaped) [
        | inl none_ ↦
            rw (serve_with, serve_forever, none_) (serve_with-Matches more next sent matches)
        | inr (e, some_) ↦ rw (serve_with, serve_forever, some_) (refl, matches)
      ]

-- Every part of the receiver starts, and the connection can be closed.
pub record Starts (R : Runtime) (s : Surroundings R.Float) : Type 0 where
  pub config : AppConfig R.Float
  pub schema : Value R.Float → List SchemaError
  pub has_config : s.config ≡ ok config
  pub has_metrics : s.metrics ≡ ok tt
  pub connects : AllAnswered s.answers (connect_calls config.rabbitmq)
  pub has_schema : s.schema ≡ ok schema
  pub binds : s.bound ≡ ok tt
  pub disconnects : AllAnswered s.answers (close_channel ∷ close_connection ∷ [])

-- The receiver is closed, and what it has published is what the exchange has.
abbrev pub ClosedWith : RabbitMqConfig → Served → Receiver → Type 0
ClosedWith config served receiver =
    (receiver.served ≡ some served)
    × (receiver.is_open ≡ false)
    × ((p : Publisher) × (receiver.publisher ≡ some p)
        × (p.is_running ≡ false)
        × (p.delivered ≡ map (as_amqp config) served.published))

shut_down-ClosedWith :
    (R : Runtime) (config : RabbitMqConfig) (answers : Answers) (served : Served) (p : Publisher)
    → is_over served ≡ true
    → AllAnswered answers (close_channel ∷ close_connection ∷ [])
    → Matches config served p
    → ClosedWith config served (shut_down R answers (served, p))
shut_down-ClosedWith R config answers served p over answered (same, running) = rw over (
  refl,
  refl,
  (
    (close answers p).0,
    refl,
    ap (λ (q : Publisher). q.is_running) (close_running config answers p running answered),
    ap (λ (q : Publisher). q.delivered) (close_running config answers p running answered) ∙ same,
  ),
)

module _ (R : Runtime) where
  pub start_udp-ClosedWith :
      (s : Surroundings R.Float) (h : Starts R s)
      → is_over
          (serve_forever R (server_of R h.config h.schema s.telemetry) nothing_served s.received)
        ≡ true
      → ClosedWith h.config.rabbitmq
          (serve_forever R (server_of R h.config h.schema s.telemetry) nothing_served s.received)
          (start_udp R s)
  unfolding start_udp new_publisher
  start_udp-ClosedWith s h over =
      let server = server_of R h.config h.schema s.telemetry in
      let key = h.config.rabbitmq in
      let p : Publisher = record {
        calls = connect_calls key;
        is_running = true;
        delivered = [];
        messages_total = 0;
      } in
      let (same, matches) =
        serve_with-Matches R server key s.received nothing_served p (refl, refl) in
      rw
        (
          h.has_config,
          h.has_metrics,
          make-AllAnswered s.answers (connect_calls key) h.connects,
          h.has_schema,
          h.binds,
        )
        (subst
          (λ served.
            ClosedWith key served
              (shut_down R s.answers (serve_with R server key nothing_served p s.received)))
          same
          (shut_down-ClosedWith R key s.answers _ _
            (subst (λ served. is_over served ≡ true) (sym same) over) h.disconnects matches))

-- ===== src/Pipeline/Arrival.antt =====
-- What the datagrams of the receiver are in the tables and for the clients of the backend.
use rtls_stream_visualizer.Base.{
  ◌≡◌, refl, ap, ap₂, ◌∙◌, subst, true, none, some, List, [], ◌∷◌, ◌++◌, map, All,
}
use rtls_stream_visualizer.Base.Dict
use rtls_stream_visualizer.Python.Value.{obj, Fields, entries, of_entries}
use rtls_stream_visualizer.Python.Runtime.{Runtime, Loaded, loaded}
use rtls_stream_visualizer.Handler.Event.{as_dict}
use rtls_stream_visualizer.Core.Envelope.{build_v1}
use rtls_stream_visualizer.Core.Config.Types.{RabbitMqConfig}
use rtls_stream_visualizer.Core.Broker.{AmqpMessage, amqp_message}
use rtls_stream_visualizer.Core.Broker.Publisher.{Publisher}
use rtls_stream_visualizer.Core.Server.State.{
  UdpServer, Datagram, Published, Received, datagram, socket_error, Served,
}
use rtls_stream_visualizer.Core.Server.{handle, serve_forever}
use rtls_stream_visualizer.Core.Server.Loop.{values, add_all, serve_forever_lem}
use rtls_stream_visualizer.Core.Server.Delivery.{SparesHeaders}
use rtls_stream_visualizer.Backend.Database.{Storage}
use rtls_stream_visualizer.Backend.Consumer.{World, on_messages}
use rtls_stream_visualizer.Backend.Consumer.Accepted.{
  Stored, with_row, accepted_of, accepted, Holds, on_messages-Holds,
}
use rtls_stream_visualizer.Backend.Consumer.Delivered.{
  params_of, stored, extract_params-object_of, row_of-stored,
}
use rtls_stream_visualizer.Runner.Receiver.{Surroundings, nothing_served, server_of, start_udp}
use rtls_stream_visualizer.Runner.Receiver.Wired.{as_amqp, Starts, start_udp-ClosedWith}
use rtls_stream_visualizer.Pipeline.Carried.{
  Sent, object_of_sent, Carried, nothing, refused, carried, handle_all-Carries,
}

module _ (R : Runtime) where
  -- json.loads reads back what json.dumps has written into this message.
  abbrev pub ReadsBack : Published → Type 0
  ReadsBack p =
      (fs : Fields R.Float) → p.message ≡ R.dumps (obj fs) → R.loads p.message ≡ loaded (obj fs)

  -- What the consumer reads of the messages of a queue.
  abbrev pub read_all : Storage R.Float → List AmqpMessage → List (Storage R.Float × Loaded R.Float)
  read_all S ms = map (λ m. (S, R.loads m.body)) ms

module _ (R : Runtime) (S : Storage R.Float) (server : UdpServer R.Float) where
  -- The envelope of an event with its row, if the database admits the columns.
  abbrev pub stored_of : Sent R.Float → List (Stored R.Float)
  stored_of s =
      let params = params_of R S server s.datagram s.event s.origin in
      with_row (object_of_sent R server s) (stored R S server params (S.admit params))

  abbrev pub all_stored : List (Sent R.Float) → List (Stored R.Float)
  all_stored [] = []
  all_stored (s ∷ ss) = stored_of s ++ all_stored ss

  accepted_of-object_of_sent :
      (s : Sent R.Float) → accepted_of R S (loaded (obj (object_of_sent R server s))) ≡ stored_of s
  unfolding Dict.get entries of_entries as_dict build_v1
  accepted_of-object_of_sent s = ap (with_row (object_of_sent R server s)) (
      row_of-stored R S server (object_of_sent R server s)
        (params_of R S server s.datagram s.event s.origin)
        (extract_params-object_of R S server s.datagram s.event s.origin))

  -- The messages that carry events are accepted as the rows of these, in order.
  accepted-Carried :
      (key : RabbitMqConfig) (ds : List (Datagram R.Float)) (ps : List Published)
      (ss : List (Sent R.Float))
      → Carried R server ds ps ss
      → All (ReadsBack R) ps
      → accepted R (read_all R S (map (as_amqp key) ps)) ≡ all_stored ss
  unfolding accepted amqp_message
  accepted-Carried key _ _ _ nothing h = refl
  accepted-Carried key _ _ _ (refused d e ds ps ss made rest) h =
      accepted-Carried key ds ps ss rest h
  accepted-Carried key _ _ _ (carried s p ds ps ss made message rest) (reads, h) =
      ap₂ (λ (a b : List (Stored R.Float)). a ++ b)
        (ap (accepted_of R S) (reads (object_of_sent R server s) message)
          ∙ accepted_of-object_of_sent s)
        (accepted-Carried key ds ps ss rest h)

module _ (R : Runtime) where
  -- What a receiver publishes of these datagrams.
  abbrev pub published_of :
      (s : Surroundings R.Float) → Starts R s → List (Datagram R.Float) → List Published
  published_of s h ds = values (map (handle R (server_of R h.config h.schema s.telemetry)) ds)

  pub served_all :
      (server : UdpServer R.Float) (ds : List (Datagram R.Float)) (more : List (Received R.Float))
      → server.on_decode_error ≡ none
      → serve_forever R server nothing_served (map datagram ds ++ socket_error ∷ more)
        ≡ (record (add_all nothing_served (map (handle R server) ds)) { ended = true })
  served_all server ds more silent =
      serve_forever_lem R server (record { returns = λ callback e set. cc }) nothing_served ds more
        refl

  -- From end to end. A receiver starts with envelopes of version 1.0 and a propagator that leaves
  -- the server's headers alone, takes datagrams until its socket fails, and can close its
  -- connection to the broker; its publisher is left with the messages on the exchange. When the
  -- backend handles these one at a time, and json.loads reads back what json.dumps wrote, then the
  -- tables are what the rows of exactly those events that the datagrams were published as, and
  -- whose columns the database admits, make of the tables before, recorded one after another in the
  -- order of the datagrams, each with the fields of its event; and the envelopes of these events
  -- were offered to the clients, in that order.
  pub start_udp-Holds :
      (s : Surroundings R.Float) (h : Starts R s) (ds : List (Datagram R.Float))
      (more : List (Received R.Float)) (S : Storage R.Float) (w : World R.Float)
      → s.received ≡ map datagram ds ++ socket_error ∷ more
      → h.config.envelope_version ≡ "1.0"
      → SparesHeaders (server_of R h.config h.schema s.telemetry)
      → All (ReadsBack R) (published_of s h ds)
      → (p : Publisher) × (ss : List (Sent R.Float)) × ((start_udp R s).publisher ≡ some p)
        × Carried R (server_of R h.config h.schema s.telemetry) ds (published_of s h ds) ss
        × Holds w
            (all_stored R S (server_of R h.config h.schema s.telemetry) ss)
            (on_messages R (read_all R S p.delivered) w)
  start_udp-Holds s h ds more S w received version spares reads =
      let server = server_of R h.config h.schema s.telemetry in
      let served =
        ap (serve_forever R server nothing_served) received ∙ served_all server ds more refl in
      let (_, _, (p, left, _, delivered)) = start_udp-ClosedWith R s h (rw served refl) in
      let (ss, carries) =
        handle_all-Carries R server h.config.validation.origin refl refl version spares ds in
      let same =
        delivered ∙ ap (λ (x : Served). map (as_amqp h.config.rabbitmq) x.published) served in
      (
        p,
        ss,
        left,
        carries,
        subst (λ ms. Holds w ms (on_messages R (read_all R S p.delivered) w))
            (ap (λ ms. accepted R (read_all R S ms)) same
              ∙ accepted-Carried R S server h.config.rabbitmq ds _ ss carries reads)
            (on_messages-Holds R (read_all R S p.delivered) w),
      )

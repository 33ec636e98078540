-- ===== src/Pipeline/Carried.antt =====
-- What the datagrams become on the broker, one by one.
use rtls_stream_visualizer.Base.{String, ◌≡◌, refl, some, List, [], ◌∷◌, map}
use rtls_stream_visualizer.Base.Raise.{Exception, Exc, ok, raise, Returns}
use rtls_stream_visualizer.Python.Value.{obj, Fields, of_entries}
use rtls_stream_visualizer.Python.Runtime.{Runtime}
use rtls_stream_visualizer.Handler.Event.{NormalizedEvent}
use rtls_stream_visualizer.Core.Envelope.{default_registry}
use rtls_stream_visualizer.Core.Server.State.{UdpServer, Datagram, Published}
use rtls_stream_visualizer.Core.Server.{handle}
use rtls_stream_visualizer.Core.Server.Loop.{values}
use rtls_stream_visualizer.Core.Server.Delivery.{
  SparesHeaders, envelope_of, Delivers, handle-Delivers,
}

-- An event that a datagram was published as, with the origin of its envelope.
pub record Sent (F : Type 0) : Type 0 where
  pub datagram : Datagram F
  pub event : NormalizedEvent F
  pub origin : String

module _ (R : Runtime) (server : UdpServer R.Float) where
  -- The JSON object of what was sent.
  abbrev pub object_of_sent : Sent R.Float → Fields R.Float
  object_of_sent s = of_entries (envelope_of server s.datagram s.event s.origin)

  -- Datagrams, the messages that were published for them, and the events in these: a datagram that
  -- raises has no message, and every other one has one, whose text is that of the event's envelope.
  pub data Carried : List (Datagram R.Float) → List Published → List (Sent R.Float) → Type 0 where
    nothing : Carried [] [] []
    refused :
        (d : Datagram R.Float) (e : Exception) (ds : List (Datagram R.Float)) (ps : List Published)
        (ss : List (Sent R.Float))
        → handle R server d ≡ raise e
        → Carried ds ps ss
        → Carried (d ∷ ds) ps ss
    carried :
        (s : Sent R.Float) (p : Published) (ds : List (Datagram R.Float)) (ps : List Published)
        (ss : List (Sent R.Float))
        → handle R server s.datagram ≡ ok p
        → p.message ≡ R.dumps (obj (object_of_sent s))
        → Carried ds ps ss
        → Carried (s.datagram ∷ ds) (p ∷ ps) (s ∷ ss)

  -- Some events are what the datagrams were published as.
  abbrev pub Carries : List (Datagram R.Float) → List Published → Type 0
  Carries ds ps = (ss : List (Sent R.Float)) × Carried ds ps ss

  Carries-cons :
      (d : Datagram R.Float) (ds : List (Datagram R.Float)) (r : Exc Published)
      → handle R server d ≡ r
      → Returns (Delivers R server d) r
      → Carries ds (values (map (handle R server) ds))
      → Carries (d ∷ ds) (values (r ∷ map (handle R server) ds))
  Carries-cons d ds (raise e) made h (ss, rest) = (ss, refused d e ds _ ss made rest)
  Carries-cons d ds (ok p) made (event, origin, _, message, _, _, _, _) (ss, rest) =
      let s : Sent R.Float = record { datagram = d; event = event; origin = origin } in
      (s ∷ ss, carried s p ds _ ss made message rest)

  pub handle_all-Carries :
      (name : String)
      → server.json_normalizer ≡ some name
      → server.envelope_registry ≡ default_registry
      → server.envelope_version ≡ "1.0"
      → SparesHeaders server
      → (ds : List (Datagram R.Float)) → Carries ds (values (map (handle R server) ds))
  handle_all-Carries name set_up registry version spares [] = ([], nothing)
  handle_all-Carries name set_up registry version spares (d ∷ ds) =
      Carries-cons d ds (handle R server d) refl
        (handle-Delivers R server name d set_up registry version spares)
        (handle_all-Carries name set_up registry version spares ds)

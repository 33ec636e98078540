-- ===== src/Backend/Redelivery.antt =====
-- The queue of the broker around the handlers of backend/app.py: a message is with the broker, with a
-- handler, or its handler is through; `message.process(requeue=True)` has a message delivered again whose
-- handler raises, and acknowledges one whose handler returns, in a step of its own. The broker delivers
-- in any order, and again whatever it has no acknowledgement of when the backend ends. The connection
-- to the broker lasts as long as a run of the backend.
pub mod Conserved
pub mod Made
pub mod Settled
pub mod Poison
use rtls_stream_visualizer.Base.{
  ◌+◌, ◌<◌, ◌≡◌, true, List, [], ◌∷◌, ◌++◌, map, length, if◌then◌else◌,
}
use rtls_stream_visualizer.Python.Value.{Fields, obj, end, lookup}
use rtls_stream_visualizer.Python.Runtime.{Runtime, Loaded, loaded}
use rtls_stream_visualizer.Handler.Ls1000.Coords.{or_null}
use rtls_stream_visualizer.Backend.Broadcast.{new_broadcast}
use rtls_stream_visualizer.Backend.Broadcast.Queues.{Op, run}
use rtls_stream_visualizer.Backend.Consumer.{Verdict, acked, requeued, World, has_tag, on_message}
use rtls_stream_visualizer.Backend.Consumer.Accepted.{Stored}
use rtls_stream_visualizer.Backend.Flight.{
  prefetch_count, Phase, received, inserted, upserted, stored, is_visit, System, begin, Work,
  begins, upserts, commits, rolls_back, offers, start,
}
use rtls_stream_visualizer.Backend.Flight.Splits.{unoffered}
use rtls_stream_visualizer.Backend.Flight.Fates.{fate}

-- The queue with the backend that consumes it. The logs are those of the runs that have ended.
pub record Broker (F : Type 0) : Type 0 where
  pub ready : List (Loaded F)
  pub system : System F
  -- Whose handler has returned, in order.
  pub settled : List (Loaded F)
  -- Those of them whose acknowledgement has not reached the broker.
  pub unacked : List (Loaded F)
  -- Those that went back to the queue so, because their run ended.
  pub again : List (Loaded F)
  pub committed : List (Stored F)
  pub published : List (Stored F)
  -- What was committed and not yet broadcast when its run ended.
  pub lost : List (Stored F)

module _ {F : Type 0} where
  -- The message that a handler has.
  abbrev pub message_of : Phase F → Loaded F
  message_of (received m) = m
  message_of (inserted envelope row) = loaded (obj envelope)
  message_of (upserted envelope row current) = loaded (obj envelope)
  message_of (stored envelope row) = loaded (obj envelope)

  abbrev pub messages_of : List (Phase F) → List (Loaded F)
  messages_of flight = map message_of flight

  -- The object of a message.
  abbrev pub object_in : Loaded F → Fields F
  object_in (loaded (obj fs)) = fs
  object_in m = end

  -- Of messages with their verdicts, those that go back and those that are gone.
  abbrev pub returned : List (Loaded F × Verdict) → List (Loaded F)
  returned [] = []
  returned ((m, requeued) ∷ ends) = m ∷ returned ends
  returned ((m, acked) ∷ ends) = returned ends

  abbrev pub taken : List (Loaded F × Verdict) → List (Loaded F)
  taken [] = []
  taken ((m, requeued) ∷ ends) = taken ends
  taken ((m, acked) ∷ ends) = m ∷ taken ends

  -- A backend that starts with these tables, with no client and its counters at zero.
  abbrev pub restarted : World F → World F
  restarted w = record {
    tables = w.tables;
    broadcast = new_broadcast w.broadcast.maxsize;
    processed = 0;
    malformed_json = 0;
    missing_tag_id = 0;
    db_error = 0;
  }

  -- Envelopes whose payload has a tag, among these messages.
  unfoldable pub tagged : List (Loaded F) → List (Fields F)
  tagged [] = []
  tagged (loaded (obj envelope) ∷ ms) =
      let rest = tagged ms in
      if has_tag (or_null (lookup envelope "payload")) then envelope ∷ rest else rest
  tagged (m ∷ ms) = tagged ms

module _ (R : Runtime) where
  -- The messages whose handler ends in a step, and whether it raises or returns.
  unfoldable pub ends : (s t : System R.Float) → Work R s t → List (Loaded R.Float × Verdict)
  ends s t (begins S m before after e) =
      map (λ v. (m, v)) (fate (begin R S m s.world).0 (on_message R S m s.world).0)
  ends s t (upserts envelope row before after e free) = []
  ends s t (commits envelope row current before after e) = []
  ends s t (rolls_back phase before after e open_) = (message_of phase, requeued) ∷ []
  ends s t (offers envelope row before after e) = (loaded (obj envelope), acked) ∷ []

  -- One step of the queue and the backend.
  pub data Turn (b : Broker R.Float) : Broker R.Float → Type 0 where
    arrives : (m : Loaded R.Float) → Turn b (record b { ready = b.ready ++ m ∷ [] })
    delivers :
        (m : Loaded R.Float) (before after : List (Loaded R.Float))
        → b.ready ≡ before ++ m ∷ after
        → length b.system.flight + length b.unacked < prefetch_count
        → Turn b (record b {
          ready = before ++ after;
          system = record b.system { flight = b.system.flight ++ received m ∷ [] };
        })
    works :
        {t : System R.Float} (work : Work R b.system t)
        → Turn b (record b {
          ready = b.ready ++ returned (ends b.system t work);
          system = t;
          settled = b.settled ++ taken (ends b.system t work);
          unacked = b.unacked ++ taken (ends b.system t work);
        })
    -- An acknowledgement reaches the broker.
    acknowledges :
        (m : Loaded R.Float) (before after : List (Loaded R.Float))
        → b.unacked ≡ before ++ m ∷ after
        → Turn b (record b { unacked = before ++ after })
    visits :
        (op : Op (Fields R.Float))
        → is_visit op ≡ true
        → Turn b (record b {
          system = record b.system {
            world = record b.system.world { broadcast = run op b.system.world.broadcast };
          };
        })
    -- The backend ends, however it does, and is started again: its open transactions are rolled back.
    restarts : Turn b (record {
      ready = b.ready ++ (messages_of b.system.flight ++ b.unacked);
      system = start (restarted b.system.world);
      settled = b.settled;
      unacked = [];
      again = b.again ++ b.unacked;
      committed = b.committed ++ b.system.committed;
      published = b.published ++ b.system.published;
      lost = b.lost ++ unoffered b.system.flight;
    })

  pub data Turns (b : Broker R.Float) : Broker R.Float → Type 0 where
    stay : Turns b b
    go : {c d : Broker R.Float} → Turns b c → Turn c d → Turns b d

  abbrev arrived_in : (b c : Broker R.Float) → Turn b c → List (Loaded R.Float)
  arrived_in b c (arrives m) = m ∷ []
  arrived_in b c (delivers m before after e room) = []
  arrived_in b c (works work) = []
  arrived_in b c (acknowledges m before after e) = []
  arrived_in b c (visits op visit) = []
  arrived_in b c restarts = []

  -- What was published to the queue.
  unfoldable pub arrived : (b c : Broker R.Float) → Turns b c → List (Loaded R.Float)
  arrived b c stay = []
  arrived b c (go {c = m} turns turn) = arrived b m turns ++ arrived_in m c turn

-- An empty queue and a backend that has just started.
abbrev pub new_broker : {F : Type 0} → World F → Broker F
new_broker w = record {
  ready = [];
  system = start w;
  settled = [];
  unacked = [];
  again = [];
  committed = [];
  published = [];
  lost = [];
}

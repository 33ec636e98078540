-- ===== src/Backend/Flight.antt =====
-- The messages that the embedded consumer handles at the same time: `_on_message` of backend/app.py
-- as a task per message, whose write runs in a thread of the executor as one transaction.
--
-- PostgreSQL is at READ COMMITTED: a transaction sees what is committed, and an upsert waits while
-- another transaction that has not ended has upserted the same tag, then works on what that one has
-- committed. The events stand in the order in which they become visible, that of their commits; their
-- ids, which are given at the INSERT, are no part of the rows. The pool holds more connections than the
-- broker has messages in flight.
pub mod Splits
pub mod Rest
pub mod Sound
pub mod Progress
pub mod Consistent
pub mod Alone
pub mod Fates
use rtls_stream_visualizer.Base.{
  ℕ, ◌+◌, ◌<◌, ◌≡◌, String, Bool, true, false, not, ◌&&◌, ◌==◌, Option, none, some, List, [], ◌∷◌,
  ◌++◌, length, if◌then◌else◌,
}
use rtls_stream_visualizer.Base.Dict
use rtls_stream_visualizer.Base.Raise.{Exc, ok, raise}
use rtls_stream_visualizer.Python.Value.{Value, null, integer, float, str, arr, obj, Fields, lookup}
use rtls_stream_visualizer.Python.Runtime.{Runtime, Loaded, loaded, malformed, failed}
use rtls_stream_visualizer.Handler.Ls1000.Coords.{or_null}
use rtls_stream_visualizer.Backend.Database.{Row, Tables, Storage, row_of, newer_row}
use rtls_stream_visualizer.Backend.Broadcast.{Broadcast, publish}
use rtls_stream_visualizer.Backend.Broadcast.Queues.{Op, join, leave, next, send, run}
use rtls_stream_visualizer.Backend.Consumer.{World, has_tag}
use rtls_stream_visualizer.Backend.Consumer.Accepted.{Stored}

-- channel.set_qos(prefetch_count=10): the broker has no more messages than that unacknowledged.
abbrev pub prefetch_count : ℕ
prefetch_count = 10

-- How far the handler of a message has come.
pub data Phase (F : Type 0) : Type 0 where
  -- before the transaction
  received : Loaded F → Phase F
  -- the event is inserted
  inserted : Fields F → Row F → Phase F
  -- the upsert is done too: it keeps its tag, and has made the last row the current one
  upserted : Fields F → Row F → Row F → Phase F
  -- the transaction is committed, and the broadcast is still to come
  stored : Fields F → Row F → Phase F

-- What a client does to the broadcast; only handlers send.
abbrev pub is_visit : {E : Type 0} → Op E → Bool
is_visit (send envelope) = false
is_visit op = true

-- The handlers in flight, with the logs of what was committed and what was broadcast so far.
pub record System (F : Type 0) : Type 0 where
  pub world : World F
  pub flight : List (Phase F)
  pub committed : List (Stored F)
  pub published : List (Stored F)

module _ {F : Type 0} where
  abbrev pub keeps : String → Phase F → Bool
  keeps tag (upserted envelope row current) = row.tag_id == tag
  keeps tag phase = false

  abbrev pub in_transaction : Phase F → Bool
  in_transaction (inserted envelope row) = true
  in_transaction (upserted envelope row current) = true
  in_transaction phase = false

  -- No transaction of these keeps the tag.
  abbrev pub is_free : String → List (Phase F) → Bool
  is_free tag [] = true
  is_free tag (phase ∷ flight) = not (keeps tag phase) && is_free tag flight

  -- What the upsert of a row makes the current row, as the tables are committed.
  abbrev pub upsert_on : Tables F → Row F → Row F
  upsert_on t row = newer_row row (Dict.get t.current_positions row.tag_id)

  -- What a commit makes visible. The event got its id at the INSERT, which is no part of the tables.
  abbrev pub commit_rows : Row F → Row F → Tables F → Tables F
  commit_rows row current t = record {
    position_events = t.position_events ++ row ∷ [];
    current_positions = Dict.set t.current_positions row.tag_id current;
  }

module _ (R : Runtime) where
  unfoldable pub begin_row :
      Fields R.Float → World R.Float → Exc (Row R.Float) → List (Phase R.Float) × World R.Float
  begin_row envelope w (ok row) = (inserted envelope row ∷ [], w)
  begin_row envelope w (raise e) = ([], record w { db_error = w.db_error + 1 })

  unfoldable pub begin_tagged :
      Storage R.Float → Fields R.Float → World R.Float → List (Phase R.Float) × World R.Float
  unfolding begin_row
  begin_tagged S envelope w =
      if has_tag (or_null (lookup envelope "payload"))
      then begin_row envelope w (row_of R S envelope)
      else ([], record w { missing_tag_id = w.missing_tag_id + 1 })

  -- The handler up to the INSERT; a message that ends before has no phase left.
  unfoldable pub begin :
      Storage R.Float → Loaded R.Float → World R.Float → List (Phase R.Float) × World R.Float
  unfolding begin_tagged
  begin S (malformed reason) w = ([], record w { malformed_json = w.malformed_json + 1 })
  begin S (failed e) w = ([], w)
  begin S (loaded (obj envelope)) w = begin_tagged S envelope w
  begin S (loaded v) w = ([], w)

  -- One step of one handler.
  pub data Work (s : System R.Float) : System R.Float → Type 0 where
    begins :
        (S : Storage R.Float) (m : Loaded R.Float) (before after : List (Phase R.Float))
        → s.flight ≡ before ++ received m ∷ after
        → Work s (record s {
          world = (begin S m s.world).1;
          flight = before ++ ((begin S m s.world).0 ++ after);
        })
    upserts :
        (envelope : Fields R.Float) (row : Row R.Float) (before after : List (Phase R.Float))
        → s.flight ≡ before ++ inserted envelope row ∷ after
        → is_free row.tag_id (before ++ after) ≡ true
        → Work s (record s {
          flight = before ++ upserted envelope row (upsert_on s.world.tables row) ∷ after;
        })
    commits :
        (envelope : Fields R.Float) (row current : Row R.Float)
        (before after : List (Phase R.Float))
        → s.flight ≡ before ++ upserted envelope row current ∷ after
        → Work s (record s {
          world = record s.world { tables = commit_rows row current s.world.tables };
          flight = before ++ stored envelope row ∷ after;
          committed = s.committed ++ (envelope, row) ∷ [];
        })
    -- The transaction fails and is rolled back; the message goes back to the queue.
    rolls_back :
        (phase : Phase R.Float) (before after : List (Phase R.Float))
        → s.flight ≡ before ++ phase ∷ after
        → in_transaction phase ≡ true
        → Work s (record s {
          world = record s.world { db_error = s.world.db_error + 1 };
          flight = before ++ after;
        })
    offers :
        (envelope : Fields R.Float) (row : Row R.Float) (before after : List (Phase R.Float))
        → s.flight ≡ before ++ stored envelope row ∷ after
        → Work s (record s {
          world = record s.world {
            broadcast = publish s.world.broadcast envelope;
            processed = s.world.processed + 1;
          };
          flight = before ++ after;
          published = s.published ++ (envelope, row) ∷ [];
        })

  -- One step of the backend: of a handler, of the broker, or of a client that joins, leaves or takes
  -- an envelope.
  pub data Step (s : System R.Float) : System R.Float → Type 0 where
    works : {t : System R.Float} → Work s t → Step s t
    delivers :
        (m : Loaded R.Float)
        → length s.flight < prefetch_count
        → Step s (record s { flight = s.flight ++ received m ∷ [] })
    visits :
        (op : Op (Fields R.Float))
        → is_visit op ≡ true
        → Step s (record s { world = record s.world { broadcast = run op s.world.broadcast } })

  pub data Steps (s : System R.Float) : System R.Float → Type 0 where
    stay : Steps s s
    go : {t u : System R.Float} → Steps s t → Step t u → Steps s u

-- The consumer has just started.
abbrev pub start : {F : Type 0} → World F → System F
start w = record { world = w; flight = []; committed = []; published = [] }

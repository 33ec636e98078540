-- ===== src/Backend/Consumer.antt =====
-- `_on_message` of backend/app.py, and `on_message` of backend/consumer.py.
pub mod Outcomes
pub mod Delivered
pub mod Accepted
use rtls_stream_visualizer.Base.{
  ℕ, ◌+◌, String, Bool, Option, none, some, List, [], ◌∷◌, is_some, if◌then◌else◌,
}
use rtls_stream_visualizer.Base.Raise.{Exception, Exc, ok, raise, attribute_error}
use rtls_stream_visualizer.Python.Value.{Value, null, obj, Fields, lookup}
use rtls_stream_visualizer.Python.Runtime.{Runtime, Loaded, loaded, malformed, failed}
use rtls_stream_visualizer.Handler.Ls1000.Coords.{or_null}
use rtls_stream_visualizer.Backend.Database.{Tables, Storage, write_to_db}
use rtls_stream_visualizer.Backend.Broadcast.{Broadcast, publish}

-- What `message.process(requeue=True)` does with the message in the end.
pub data Verdict : Type 0 where
  acked requeued : Verdict

-- What a message can change: the tables, the subscribers' queues and the counters of
-- backend/metrics.py. The trace context in its headers has no part in that.
pub record World (F : Type 0) : Type 0 where
  pub tables : Tables F
  pub broadcast : Broadcast (Fields F)
  pub processed : ℕ
  pub malformed_json : ℕ
  pub missing_tag_id : ℕ
  pub db_error : ℕ

-- `isinstance(payload, dict) and "tag_id" in payload`
abbrev pub has_tag : {F : Type 0} → Value F → Bool
has_tag (obj payload) = is_some (lookup payload "tag_id")
has_tag v = Bool.false

module _ (R : Runtime) (S : Storage R.Float) where
  -- The end of the handler, by the result of `_write_to_db`.
  unfoldable pub after_write :
      Fields R.Float → World R.Float → Exc (Unit {0}) × Tables R.Float → Verdict × World R.Float
  after_write envelope w (raise e, tables) =
      (requeued, record w { tables = tables; db_error = w.db_error + 1 })
  after_write envelope w (ok u, tables) = (
    acked,
    record w {
      tables = tables;
      broadcast = publish w.broadcast envelope;
      processed = w.processed + 1;
    },
  )

  unfoldable pub on_envelope : Fields R.Float → World R.Float → Verdict × World R.Float
  unfolding after_write
  on_envelope envelope w =
      if has_tag (or_null (lookup envelope "payload"))
      then after_write envelope w (write_to_db R S envelope w.tables)
      else (acked, record w { missing_tag_id = w.missing_tag_id + 1 })

  -- The argument is json.loads(message.body); bytes that are no UTF-8 count as malformed too.
  unfoldable pub on_message : Loaded R.Float → World R.Float → Verdict × World R.Float
  unfolding on_envelope
  on_message (malformed reason) w = (acked, record w { malformed_json = w.malformed_json + 1 })
  on_message (failed e) w = (requeued, w)
  on_message (loaded (obj envelope)) w = on_envelope envelope w
  on_message (loaded v) w = (requeued, w)

  -- backend/consumer.py: neither broadcast nor counters.
  after_plain_write : Exc (Unit {0}) × Tables R.Float → Verdict × Tables R.Float
  after_plain_write (raise e, tables) = (requeued, tables)
  after_plain_write (ok u, tables) = (acked, tables)

  unfoldable pub consume : Loaded R.Float → Tables R.Float → Verdict × Tables R.Float
  unfolding after_plain_write
  consume (malformed reason) t = (acked, t)
  consume (failed e) t = (requeued, t)
  consume (loaded (obj envelope)) t =
      if has_tag (or_null (lookup envelope "payload"))
      then after_plain_write (write_to_db R S envelope t)
      else (acked, t)
  consume (loaded v) t = (requeued, t)

-- Messages one after another, each with what the database does while it is handled.
module _ (R : Runtime) where
  unfoldable pub on_messages :
      List (Storage R.Float × Loaded R.Float) → World R.Float → World R.Float
  on_messages [] w = w
  on_messages ((S, m) ∷ ms) w = on_messages ms (on_message R S m w).1

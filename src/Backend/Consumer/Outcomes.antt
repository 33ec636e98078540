-- ===== src/Backend/Consumer/Outcomes.antt =====
-- What becomes of a message of the broker.
use rtls_stream_visualizer.Base.{
  ◌+◌, ◌≡◌, refl, true, false, ◌⊎◌, inl, inr, Bool-cases, List, [], ◌∷◌, arith, subst, sym, ◌∙◌,
}
use rtls_stream_visualizer.Base.Raise.{Exception, Exc, ok, raise}
use rtls_stream_visualizer.Python.Value.{obj, Fields, lookup}
use rtls_stream_visualizer.Python.Runtime.{Runtime, Loaded, loaded, malformed, failed}
use rtls_stream_visualizer.Handler.Ls1000.Coords.{or_null}
use rtls_stream_visualizer.Backend.Params.{extract_params}
use rtls_stream_visualizer.Backend.Database.{Row, Storage, row_of}
use rtls_stream_visualizer.Backend.Database.Latest.{
  IsConsistent, record_row, record_row-IsConsistent,
}
use rtls_stream_visualizer.Backend.Database.Writes.{written, write_to_db-written}
use rtls_stream_visualizer.Backend.Broadcast.{publish}
use rtls_stream_visualizer.Backend.Consumer.{
  Verdict, acked, requeued, World, has_tag, after_write, on_message, consume, on_messages,
}

-- What one envelope does to the world, by the row that it makes.
abbrev pub effect_of_row : {F : Type 0} → Fields F → World F → Exc (Row F) → Verdict × World F
effect_of_row envelope w (ok row) = (
  acked,
  record w {
    tables = record_row row w.tables;
    broadcast = publish w.broadcast envelope;
    processed = w.processed + 1;
  },
)
effect_of_row envelope w (raise e) = (requeued, record w { db_error = w.db_error + 1 })

-- Nothing that outlives the message has changed, or its row was written and its envelope offered
-- to every subscriber, and it was acknowledged.
abbrev pub Change :
    (R : Runtime)
    → Storage R.Float
    → Loaded R.Float
    → World R.Float
    → Verdict × World R.Float
    → Type 0
Change R S m w (verdict, w') =
    ((w'.tables ≡ w.tables) × (w'.broadcast ≡ w.broadcast))
    ⊎ ((envelope : Fields R.Float) × (row : Row R.Float) × (m ≡ loaded (obj envelope))
        × (row_of R S envelope ≡ ok row)
        × (w'.tables ≡ record_row row w.tables)
        × (w'.broadcast ≡ publish w.broadcast envelope)
        × (verdict ≡ acked))

module _ (R : Runtime) (S : Storage R.Float) where
  after_write-effect_of_row :
      (envelope : Fields R.Float) (w : World R.Float) (r : Exc (Row R.Float))
      → after_write R S envelope w (written w.tables r) ≡ effect_of_row envelope w r
  unfolding after_write
  after_write-effect_of_row envelope w (ok row) = refl
  after_write-effect_of_row envelope w (raise e) = refl

  -- An envelope with a tagged payload is written and then broadcast, and is acknowledged, when it
  -- makes a row. Otherwise it goes back to the queue, counted as a database error, and neither the
  -- tables nor any subscriber's queue changes.
  pub on_message_tagged :
      (envelope : Fields R.Float) (w : World R.Float)
      → has_tag (or_null (lookup envelope "payload")) ≡ true
      → on_message R S (loaded (obj envelope)) w ≡ effect_of_row envelope w (row_of R S envelope)
  unfolding on_message
  on_message_tagged envelope w tagged = simp tagged (
      rw (write_to_db-written R S envelope w.tables)
        (after_write-effect_of_row envelope w (row_of R S envelope)))

  pub on_message_untagged :
      (envelope : Fields R.Float) (w : World R.Float)
      → has_tag (or_null (lookup envelope "payload")) ≡ false
      → on_message R S (loaded (obj envelope)) w
        ≡ (acked, record w { missing_tag_id = w.missing_tag_id + 1 })
  unfolding on_message
  on_message_untagged envelope w untagged = simp untagged

  effect_of_row-Change :
      (envelope : Fields R.Float) (w : World R.Float) (r : Exc (Row R.Float))
      → row_of R S envelope ≡ r
      → Change R S (loaded (obj envelope)) w (effect_of_row envelope w r)
  effect_of_row-Change envelope w (ok row) made = inr (envelope, row, refl, made, refl, refl, refl)
  effect_of_row-Change envelope w (raise e) made = inl (refl, refl)

  -- Whatever the message, either the tables and the subscribers' queues are as they were, or the
  -- message is an envelope that made a row, both tables have that row, the envelope was offered to
  -- every subscriber, and the message was acknowledged. So nothing is broadcast that was not
  -- stored, and nothing is stored of a message that goes back to the queue.
  pub on_message-Change :
      (m : Loaded R.Float) (w : World R.Float) → Change R S m w (on_message R S m w)
  unfolding on_message
  on_message-Change (malformed reason) w = inl (refl, refl)
  on_message-Change (failed e) w = inl (refl, refl)
  on_message-Change (loaded (obj envelope)) w =
      elim (Bool-cases (has_tag (or_null (lookup envelope "payload")))) [
        | inl tagged ↦
            subst (Change R S (loaded (obj envelope)) w) (sym (on_message_tagged envelope w tagged))
              (effect_of_row-Change envelope w (row_of R S envelope) refl)
        | inr untagged ↦
            subst (Change R S (loaded (obj envelope)) w)
              (sym (on_message_untagged envelope w untagged)) (inl (refl, refl))
      ]
  on_message-Change (loaded v) w = inl (refl, refl)

  -- The plain consumer leaves the tables that the embedded one leaves, with the same verdict.
  pub on_message-consume :
      (m : Loaded R.Float) (w : World R.Float)
      → ((on_message R S m w).0 ≡ (consume R S m w.tables).0)
        × ((on_message R S m w).1.tables ≡ (consume R S m w.tables).1)
  unfolding on_message consume
  on_message-consume (malformed reason) w = (refl, refl)
  on_message-consume (failed e) w = (refl, refl)
  on_message-consume (loaded (obj envelope)) w = ground arith
  on_message-consume (loaded v) w = (refl, refl)

  IsConsistent-Change :
      (m : Loaded R.Float) (w : World R.Float) (o : Verdict × World R.Float)
      → IsConsistent w.tables
      → Change R S m w o
      → IsConsistent o.1.tables
  IsConsistent-Change m w o h (inl (same, _)) = subst IsConsistent (sym same) h
  IsConsistent-Change m w o h (inr (envelope, row, _, _, tables, _, _)) =
      subst IsConsistent (sym tables) (record_row-IsConsistent row w.tables h)

module _ (R : Runtime) where
  -- After any messages, and whatever the database does meanwhile, the current row of every tag is
  -- the last of the stored events of that tag that have the greatest timestamp, and a tag without
  -- events has no current row, if that was so before.
  pub on_messages-IsConsistent :
      (ms : List (Storage R.Float × Loaded R.Float)) (w : World R.Float)
      → IsConsistent w.tables
      → IsConsistent (on_messages R ms w).tables
  unfolding on_messages
  on_messages-IsConsistent [] w h = h
  on_messages-IsConsistent ((S, m) ∷ ms) w h =
      on_messages-IsConsistent ms (on_message R S m w).1
        (IsConsistent-Change R S m w (on_message R S m w) h (on_message-Change R S m w))

  -- An envelope with a tag that lacks what a row needs, its timestamp say, goes back to the queue
  -- whatever the world and the database are, so it is delivered again and again.
  pub poison_envelope :
      (envelope : Fields R.Float) (e : Exception) (S : Storage R.Float) (w : World R.Float)
      → has_tag (or_null (lookup envelope "payload")) ≡ true
      → extract_params R S.print envelope ≡ raise e
      → on_message R S (loaded (obj envelope)) w
        ≡ (requeued, record w { db_error = w.db_error + 1 })
  unfolding row_of
  poison_envelope envelope e S w tagged broken = on_message_tagged R S envelope w tagged ∙ rw broken

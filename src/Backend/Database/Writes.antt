-- ===== src/Backend/Database/Writes.antt =====
-- `_write_to_db` is all or nothing.
use rtls_stream_visualizer.Base.{◌≡◌, refl}
use rtls_stream_visualizer.Base.Raise.{Exc, ok, raise}
use rtls_stream_visualizer.Python.Value.{Fields}
use rtls_stream_visualizer.Python.Runtime.{Runtime}
use rtls_stream_visualizer.Backend.Database.{
  Row, Tables, Storage, insert_event, upsert_current, row_of, write_to_db, execute, close, commit,
  ◌>>◌,
}

-- What a write has done, by the row that its envelope became.
abbrev pub written : {F : Type 0} → Tables F → Exc (Row F) → Exc (Unit {0}) × Tables F
written t (ok row) = (ok tt, upsert_current row (insert_event row t))
written t (raise e) = (raise e, t)

module _ (R : Runtime) (S : Storage R.Float) where
  close-written :
      (r : Exc (Row R.Float)) (t : Tables R.Float)
      → close R S (
          (execute R S insert_event r >> execute R S upsert_current r >> commit R S)
            (record { committed = t; pending = t }))
        ≡ written t r
  unfolding close execute commit
  close-written (ok row) t = refl
  close-written (raise e) t = refl

  -- A write either commits both statements, the event and the current position of the same row, or
  -- it raises and leaves both tables as they were; it raises exactly when its envelope makes no
  -- row.
  pub write_to_db-written :
      (envelope : Fields R.Float) (t : Tables R.Float)
      → write_to_db R S envelope t ≡ written t (row_of R S envelope)
  unfolding write_to_db
  write_to_db-written envelope t = close-written (row_of R S envelope) t

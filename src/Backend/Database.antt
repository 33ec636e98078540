-- ===== src/Backend/Database.antt =====
-- The two tables, the SQL statements of backend/repository/sql that write them, the operations of
-- backend/repository/positions.py that run these, and `_write_to_db` of backend/app.py.
pub mod Writes
pub mod Latest
use rtls_stream_visualizer.Base.{
  String, Bool, true, false, Option, none, some, List, [], ◌∷◌, ◌++◌, if◌then◌else◌,
}
use rtls_stream_visualizer.Base.Int.{ℤ, lebℤ}
use rtls_stream_visualizer.Base.Dict
use rtls_stream_visualizer.Base.Dict.{Dict}
use rtls_stream_visualizer.Base.Raise.{Exception, Exc, ok, raise, db_error}
use rtls_stream_visualizer.Python.Value.{Value, Fields}
use rtls_stream_visualizer.Python.Runtime.{Runtime}
use rtls_stream_visualizer.Backend.Params.{Params, extract_params}

-- A row of either table: its `tag_id` and `ts_utc_ms` columns, and what the others were made from.
pub record Row (F : Type 0) : Type 0 where
  pub tag_id : String
  pub ts_utc_ms : ℤ
  pub params : Params F

-- `position_events` in the order in which its rows become visible, and `current_positions` by its
-- primary key. The column `id`, which the database fills at the INSERT, is left out: no query of the
-- program reads it or orders by it.
pub record Tables (F : Type 0) : Type 0 where
  pub position_events : List (Row F)
  pub current_positions : Dict (Row F)

abbrev pub empty_tables : (F : Type 0) → Tables F
empty_tables F = record { position_events = []; current_positions = [] }

module _ {F : Type 0} where
  -- insert_position_event.sql
  unfoldable pub insert_event : Row F → Tables F → Tables F
  insert_event row t = record t { position_events = t.position_events ++ row ∷ [] }

  -- upsert_current_position.sql: on a conflict the row is replaced where the new timestamp is not
  -- before the old one.
  unfoldable pub newer_row : Row F → Option (Row F) → Row F
  newer_row row none = row
  newer_row row (some old) = if lebℤ old.ts_utc_ms row.ts_utc_ms then row else old

  unfoldable pub upsert_current : Row F → Tables F → Tables F
  unfolding newer_row
  upsert_current row t = record t {
    current_positions =
        Dict.set t.current_positions row.tag_id
          (newer_row row (Dict.get t.current_positions row.tag_id));
  }

-- A connection with an open transaction: what is committed, and what this transaction sees.
pub record Connection (F : Type 0) : Type 0 where
  pub committed : Tables F
  pub pending : Tables F

-- What PostgreSQL and `json.dumps` do with parameters: the columns `tag_id` and `ts_utc_ms` that
-- they become, or an error of the database, where a value does not fit its column.
pub record Storage (F : Type 0) : Type 0 where
  pub admit : Params F → Option (String × ℤ)
  pub print : Value F → String

-- A step on a connection that may raise.
abbrev pub Step : Type 0 → Type 0
Step F = Connection F → Exc (Unit {0}) × Connection F

infixl 5 ◌>>◌
abbrev pub continue : {F : Type 0} → Exc (Unit {0}) → Step F → Step F
continue (ok u) next c = next c
continue (raise e) next c = (raise e, c)

-- One step, and the next one unless it raised.
abbrev pub ◌>>◌ : {F : Type 0} → Step F → Step F → Step F
◌>>◌ first next c = let (r, c') = first c in continue r next c'

module _ (R : Runtime) (S : Storage R.Float) where
  row_of_columns : Params R.Float → Option (String × ℤ) → Exc (Row R.Float)
  row_of_columns params none = raise db_error
  row_of_columns params (some (tag_id, ts)) =
      ok (record { tag_id = tag_id; ts_utc_ms = ts; params = params })

  row_of_params : Exc (Params R.Float) → Exc (Row R.Float)
  unfolding row_of_columns
  row_of_params (raise e) = raise e
  row_of_params (ok params) = row_of_columns params (S.admit params)

  -- The row that an envelope is written as.
  unfoldable pub row_of : Fields R.Float → Exc (Row R.Float)
  unfolding row_of_params
  row_of envelope = row_of_params (extract_params R S.print envelope)

  execute : (Row R.Float → Tables R.Float → Tables R.Float) → Exc (Row R.Float) → Step R.Float
  execute statement (raise e) c = (raise e, c)
  execute statement (ok row) c = (ok tt, record c { pending = statement row c.pending })

  unfoldable pub insert_position_event : Fields R.Float → Step R.Float
  unfolding execute
  insert_position_event envelope c = execute insert_event (row_of envelope) c

  unfoldable pub upsert_current_position : Fields R.Float → Step R.Float
  unfolding execute
  upsert_current_position envelope c = execute upsert_current (row_of envelope) c

  -- connection.commit()
  unfoldable pub commit : Step R.Float
  commit c = (ok tt, record c { committed = c.pending })

  unfoldable pub persist_envelope : Fields R.Float → Step R.Float
  unfolding insert_position_event upsert_current_position commit
  persist_envelope envelope =
      insert_position_event envelope >> upsert_current_position envelope >> commit

  -- `with pool.connection()`: a transaction on the committed tables, which is committed when the
  -- block ends and rolled back when it raises.
  close : Exc (Unit {0}) × Connection R.Float → Exc (Unit {0}) × Tables R.Float
  close (ok u, c) = (ok u, c.pending)
  close (raise e, c) = (raise e, c.committed)

  unfoldable pub write_to_db : Fields R.Float → Tables R.Float → Exc (Unit {0}) × Tables R.Float
  unfolding persist_envelope close
  write_to_db envelope t = close (persist_envelope envelope (record { committed = t; pending = t }))

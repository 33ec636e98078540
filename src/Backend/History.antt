-- ===== src/Backend/History.antt =====
-- `_build_time_filters`, `get_position_history` and `count_position_history` of
-- backend/repository/positions.py, with the queries of backend/repository/sql that they extend, and
-- `position_history` of backend/api/positions.py.
pub mod Pages
use rtls_stream_visualizer.Base.{
  ℕ, String, Bool, true, false, ◌&&◌, Option, none, some, List, [], ◌∷◌, ◌++◌, ◌==◌, keep, take,
  drop, length, leb, if◌then◌else◌,
}
use rtls_stream_visualizer.Base.Int.{ℤ, lebℤ}
use rtls_stream_visualizer.Backend.Database.{Row, Tables}

-- A clause that is appended to the WHERE of a query, with its parameter.
pub data Clause : Type 0 where
  at_least : ℤ → Clause
  at_most : ℤ → Clause

abbrev from_clause : Option ℤ → List Clause
from_clause none = []
from_clause (some ts) = at_least ts ∷ []

abbrev to_clause : Option ℤ → List Clause
to_clause none = []
to_clause (some ts) = at_most ts ∷ []

unfoldable pub build_time_filters : Option ℤ → Option ℤ → List Clause
build_time_filters from_ts to_ts = from_clause from_ts ++ to_clause to_ts

-- ts_utc_ms >= %(from_ts)s, ts_utc_ms <= %(to_ts)s
unfoldable pub satisfies : ℤ → List Clause → Bool
satisfies ts [] = true
satisfies ts (at_least n ∷ clauses) = lebℤ n ts && satisfies ts clauses
satisfies ts (at_most n ∷ clauses) = lebℤ ts n && satisfies ts clauses

-- `PositionHistoryResponse`
pub record HistoryResponse (F : Type 0) : Type 0 where
  pub items : List (Row F)
  pub total : ℕ

module _ {F : Type 0} where
  -- WHERE tag_id = %(tag_id)s AND …
  unfoldable pub where_tag : String → List Clause → List (Row F) → List (Row F)
  where_tag tag clauses = keep (λ row. row.tag_id == tag && satisfies row.ts_utc_ms clauses)

  -- `order` is what ORDER BY ts_utc_ms DESC makes of rows.
  unfoldable pub get_position_history :
      (List (Row F) → List (Row F)) → Tables F → String → Option ℤ → Option ℤ → ℕ → ℕ → List (Row F)
  get_position_history order t tag from_ts to_ts limit offset =
      let clauses = build_time_filters from_ts to_ts in
      take limit (drop offset (order (where_tag tag clauses t.position_events)))

  unfoldable pub count_position_history : Tables F → String → Option ℤ → Option ℤ → ℕ
  count_position_history t tag from_ts to_ts =
      length (where_tag tag (build_time_filters from_ts to_ts) t.position_events)

  -- The endpoint, after the checks that FastAPI makes of `limit` and `offset`; none is status 422.
  unfoldable pub position_history :
      (List (Row F) → List (Row F))
      → Tables F
      → String
      → Option ℤ
      → Option ℤ
      → ℕ
      → ℕ
      → Option (HistoryResponse F)
  position_history order t tag from_ts to_ts limit offset =
      if leb 1 limit && leb limit 1000
      then some (record {
        items = get_position_history order t tag from_ts to_ts limit offset;
        total = count_position_history t tag from_ts to_ts;
      })
      else none

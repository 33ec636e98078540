-- ===== src/Backend/Current.antt =====
-- `get_all_current_positions` of backend/repository/positions.py with its query, and `_snapshot` of
-- backend/api/ws.py, as rows; Backend.Columns makes dicts of them.
pub mod Keyed
pub mod Shown
use rtls_stream_visualizer.Base.{List, map}
use rtls_stream_visualizer.Base.Raise.{Exc, ok, raise}
use rtls_stream_visualizer.Backend.Database.{Row, Tables}

-- `order` is what ORDER BY tag_id makes of rows; how texts compare is the collation's.
unfoldable pub get_all_current_positions :
    {F : Type 0} → (List (Row F) → List (Row F)) → Tables F → List (Row F)
get_all_current_positions order t = order (map (λ entry. entry.1) t.current_positions)

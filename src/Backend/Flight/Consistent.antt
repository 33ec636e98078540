-- ===== src/Backend/Flight/Consistent.antt =====
-- Both tables under concurrent handlers.
use rtls_stream_visualizer.Base.{sym, subst, List, [], ◌∷◌, map}
use rtls_stream_visualizer.Python.Runtime.{Runtime}
use rtls_stream_visualizer.Backend.Database.{Row, Tables}
use rtls_stream_visualizer.Backend.Database.Latest.{
  IsConsistent, record_row, record_row-IsConsistent,
}
use rtls_stream_visualizer.Backend.Consumer.{World}
use rtls_stream_visualizer.Backend.Consumer.Accepted.{record_all}
use rtls_stream_visualizer.Backend.Current.Keyed.{IsKeyed, record_all-IsKeyed}
use rtls_stream_visualizer.Backend.Flight.{System, Steps, start}
use rtls_stream_visualizer.Backend.Flight.Sound.{Steps-IsSound}

record_all-IsConsistent :
    {F : Type 0} (t : Tables F) (rows : List (Row F))
    → IsConsistent t
    → IsConsistent (record_all t rows)
unfolding record_all
record_all-IsConsistent t [] h = h
record_all-IsConsistent t (row ∷ rows) h =
    record_all-IsConsistent (record_row row t) rows (record_row-IsConsistent row t h)

module _ (R : Runtime) where
  -- Whatever handlers run at the same time and whatever fails, the committed tables agree at every
  -- point if they did at the start: the current row of a tag has the greatest timestamp of its
  -- committed events, is the one committed last of those that have it, and stands under its tag,
  -- once. The ids of the events, which follow the order of the INSERTs, may order events of equal
  -- timestamps otherwise.
  pub Steps-IsConsistent :
      (w : World R.Float) (s : System R.Float)
      → Steps R (start w) s
      → IsConsistent w.tables
      → IsKeyed w.tables
      → IsConsistent s.world.tables × IsKeyed s.world.tables
  Steps-IsConsistent w s steps consistent keyed =
      let rows = map (λ c. c.1) s.committed in
      let serial = (Steps-IsSound R w s steps).serial in
      (
        subst IsConsistent (sym serial) (record_all-IsConsistent w.tables rows consistent),
        subst IsKeyed (sym serial) (record_all-IsKeyed w.tables rows keyed),
      )

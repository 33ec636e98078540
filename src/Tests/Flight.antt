-- ===== src/Tests/Flight.antt =====
-- Two messages of one tag in flight at the same time.
use rtls_stream_visualizer.Base.{String, refl, List, [], ◌∷◌, ◌++◌, arith}
use rtls_stream_visualizer.Base.Dict
use rtls_stream_visualizer.Python.Value.{obj, entries}
use rtls_stream_visualizer.Python.Runtime.{loaded}
use rtls_stream_visualizer.Backend.Params.{extract_params, item, fields_of}
use rtls_stream_visualizer.Backend.Database.{row_of, newer_row}
use rtls_stream_visualizer.Backend.Broadcast.{publish}
use rtls_stream_visualizer.Backend.Broadcast.Queues.{join, run}
use rtls_stream_visualizer.Backend.Flight.{
  received, inserted, upserted, stored, System, begin, begin_tagged, begin_row, Work, begins,
  upserts, commits, rolls_back, offers, works, delivers, visits, Steps, stay, go, start,
  commit_rows,
}
use rtls_stream_visualizer.Backend.Flight.Rest.{IsSound}
use rtls_stream_visualizer.Backend.Flight.Sound.{Steps-IsSound}
use rtls_stream_visualizer.Backend.Flight.Progress.{CanGoOn, progress}
use rtls_stream_visualizer.Backend.Database.Latest.{IsConsistent}
use rtls_stream_visualizer.Backend.Current.Keyed.{IsKeyed}
use rtls_stream_visualizer.Backend.Flight.Consistent.{Steps-IsConsistent}
use rtls_stream_visualizer.Backend.Database.{Storage}
use rtls_stream_visualizer.Backend.Consumer.{on_messages}
use rtls_stream_visualizer.Backend.Consumer.Accepted.{accepted}
use rtls_stream_visualizer.Python.Runtime.{malformed, Loaded}
use rtls_stream_visualizer.Backend.Flight.Alone.{idle, on_messages-Steps}
use rtls_stream_visualizer.Tests.Sample.{sample}
use rtls_stream_visualizer.Tests.Backend.{
  empty_tables-IsConsistent, first, late, row, storage, world,
}

-- A client has subscribed; the newer message has upserted, the older one has to wait.
abbrev pub busy : System String
busy = record {
  world = record world { broadcast = run join world.broadcast };
  flight = upserted first (row "A7" 5) (row "A7" 5) ∷ inserted late (row "A7" 3) ∷ [];
  committed = [];
  published = [];
}

pub to_busy : Steps sample (start world) busy
unfolding begin begin_tagged begin_row row_of extract_params item fields_of Dict.get entries
    newer_row
to_busy =
    go
      (go
        (go
          (go (go (go stay (visits join refl)) (delivers (loaded (obj first)) (omega arith)))
            (delivers (loaded (obj late)) (omega arith)))
          (works (begins storage (loaded (obj first)) [] (received (loaded (obj late)) ∷ []) refl)))
        (works (begins storage (loaded (obj late)) (inserted first (row "A7" 5) ∷ []) [] refl)))
      (works (upserts first (row "A7" 5) [] (inserted late (row "A7" 3) ∷ []) refl refl))

Steps-IsSound_example : IsSound world.tables busy
Steps-IsSound_example = Steps-IsSound sample world busy to_busy

progress_example : CanGoOn sample busy
progress_example =
    progress sample storage busy (upserted first (row "A7" 5) (row "A7" 5))
      (inserted late (row "A7" 3) ∷ []) refl

-- The newer one is committed and not yet broadcast.
abbrev snapshot : System String
snapshot = record busy {
  world = record busy.world { tables = commit_rows (row "A7" 5) (row "A7" 5) busy.world.tables };
  flight = stored first (row "A7" 5) ∷ inserted late (row "A7" 3) ∷ [];
  committed = (first, row "A7" 5) ∷ [];
}

to_snapshot : Work sample busy snapshot
to_snapshot = commits first (row "A7" 5) (row "A7" 5) [] (inserted late (row "A7" 3) ∷ []) refl

-- It is broadcast, and the older one has failed.
abbrev after : System String
after = record snapshot {
  world = record snapshot.world {
    broadcast = publish snapshot.world.broadcast first;
    processed = 1;
    db_error = 1;
  };
  flight = [];
  published = (first, row "A7" 5) ∷ [];
}

abbrev offered : System String
offered = record after {
  world = record after.world { db_error = 0 };
  flight = inserted late (row "A7" 3) ∷ [];
}

to_offered : Work sample snapshot offered
to_offered = offers first (row "A7" 5) [] (inserted late (row "A7" 3) ∷ []) refl

to_after : Work sample offered after
to_after = rolls_back (inserted late (row "A7" 3)) [] [] refl refl

-- The older message is committed first and broadcast last.
abbrev both_stored : System String
both_stored = record {
  world = record world {
    tables =
        commit_rows (row "A7" 5) (row "A7" 5) (commit_rows (row "A7" 3) (row "A7" 3) world.tables);
  };
  flight = stored first (row "A7" 5) ∷ stored late (row "A7" 3) ∷ [];
  committed = (late, row "A7" 3) ∷ (first, row "A7" 5) ∷ [];
  published = [];
}

to_both_stored : Steps sample (start world) both_stored
unfolding begin begin_tagged begin_row row_of extract_params item fields_of Dict.get entries
    newer_row Dict.set
to_both_stored =
    go
      (go
        (go
          (go
            (go
              (go
                (go (go stay (delivers (loaded (obj first)) (omega arith)))
                  (delivers (loaded (obj late)) (omega arith)))
                (works (
                  begins storage (loaded (obj first)) [] (received (loaded (obj late)) ∷ []) refl)))
              (works
                (begins storage (loaded (obj late)) (inserted first (row "A7" 5) ∷ []) [] refl)))
            (works (upserts late (row "A7" 3) (inserted first (row "A7" 5) ∷ []) [] refl refl)))
          (works
            (commits late (row "A7" 3) (row "A7" 3) (inserted first (row "A7" 5) ∷ []) [] refl)))
        (works (upserts first (row "A7" 5) [] (stored late (row "A7" 3) ∷ []) refl refl)))
      (works (commits first (row "A7" 5) (row "A7" 5) [] (stored late (row "A7" 3) ∷ []) refl))

abbrev late_last : System String
late_last = record both_stored {
  world = record both_stored.world {
    broadcast = publish (publish world.broadcast first) late;
    processed = 2;
  };
  flight = [];
  published = (first, row "A7" 5) ∷ (late, row "A7" 3) ∷ [];
}

to_late_last : Steps sample both_stored late_last
to_late_last =
    go (go stay (works (offers first (row "A7" 5) [] (stored late (row "A7" 3) ∷ []) refl)))
      (works (offers late (row "A7" 3) [] [] refl))

Steps-IsConsistent_example : IsConsistent late_last.world.tables × IsKeyed late_last.world.tables
Steps-IsConsistent_example =
    Steps-IsConsistent sample world late_last
      (go
        (go to_both_stored
          (works (offers first (row "A7" 5) [] (stored late (row "A7" 3) ∷ []) refl)))
        (works (offers late (row "A7" 3) [] [] refl)))
      empty_tables-IsConsistent (tt, tt)

abbrev one_by_one : List (Storage String × Loaded String)
one_by_one =
    (storage, loaded (obj first)) ∷ (storage, malformed "…") ∷ (storage, loaded (obj late)) ∷ []

on_messages-Steps_example :
    Steps sample
      (idle world [])
      (idle (on_messages sample one_by_one world) ([] ++ accepted sample one_by_one))
on_messages-Steps_example = on_messages-Steps sample one_by_one world []

abbrev settling : Steps sample busy after
settling = go (go (go stay (works to_snapshot)) (works to_offered)) (works to_after)

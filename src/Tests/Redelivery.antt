-- ===== src/Tests/Redelivery.antt =====
-- A message that is stored twice, and one that is never settled.
use mathlib.Core.List.{Perm, Mem, mem-cons_self}
use rtls_stream_visualizer.Base.{String, ◌≡◌, refl, [], ◌∷◌, ◌++◌, map, arith}
use rtls_stream_visualizer.Base.Dict
use rtls_stream_visualizer.Base.Raise.{raise, key_error}
use rtls_stream_visualizer.Python.Value.{obj, entries, Value}
use rtls_stream_visualizer.Python.Runtime.{Loaded, loaded}
use rtls_stream_visualizer.Backend.Params.{extract_params, item, fields_of}
use rtls_stream_visualizer.Backend.Database.{row_of, newer_row, write_to_db}
use rtls_stream_visualizer.Backend.Broadcast.{new_broadcast, publish}
use rtls_stream_visualizer.Backend.Consumer.{on_message}
use rtls_stream_visualizer.Backend.Consumer.Accepted.{record_all}
use rtls_stream_visualizer.Backend.Flight.{
  begin, begin_tagged, begin_row, begins, upserts, commits, offers, commit_rows,
}
use rtls_stream_visualizer.Backend.Flight.Splits.{unoffered}
use rtls_stream_visualizer.Backend.Redelivery.{
  Broker, messages_of, tagged, ends, arrives, delivers, works, acknowledges, restarts, Turns, stay,
  go, arrived, new_broker,
}
use rtls_stream_visualizer.Backend.Redelivery.Settled.{
  all_published, all_committed, Turns-delivered,
}
use rtls_stream_visualizer.Backend.Redelivery.Poison.{Turns-poison}
use rtls_stream_visualizer.Tests.Sample.{sample}
use rtls_stream_visualizer.Tests.Backend.{first, poison, row, storage, world}

abbrev message : Loaded String
message = loaded (obj first)

-- The first run ends between the commit and the broadcast, the second one between the broadcast and
-- the acknowledgement; the third one stores and broadcasts the message once more.
abbrev emptied : Broker String
emptied = record {
  ready = [];
  system = record {
    world = record world {
      tables =
          (commit_rows (row "A7" 5) (row "A7" 5) (
            commit_rows (row "A7" 5) (row "A7" 5)
              (commit_rows (row "A7" 5) (row "A7" 5) world.tables)));
      broadcast = publish (new_broadcast 2) first;
      processed = 1;
    };
    flight = [];
    committed = (first, row "A7" 5) ∷ [];
    published = (first, row "A7" 5) ∷ [];
  };
  settled = message ∷ message ∷ [];
  unacked = [];
  again = message ∷ [];
  committed = (first, row "A7" 5) ∷ (first, row "A7" 5) ∷ [];
  published = (first, row "A7" 5) ∷ [];
  lost = (first, row "A7" 5) ∷ [];
}

to_emptied : Turns sample (new_broker world) emptied
unfolding begin begin_tagged begin_row row_of extract_params item fields_of Dict.get Dict.set
    entries newer_row ends unoffered new_broadcast publish
to_emptied =
    go
      (go
        (go
          (go
            (go
              (go
                (go
                  (go
                    (go
                      (go
                        (go
                          (go
                            (go
                              (go
                                (go
                                  (go
                                    (go (go (stay) (arrives message))
                                      (delivers message [] [] refl (omega arith)))
                                    (works (begins storage message [] [] refl)))
                                  (works (upserts first (row "A7" 5) [] [] refl refl)))
                                (works (commits first (row "A7" 5) (row "A7" 5) [] [] refl)))
                              (restarts))
                            (delivers message [] [] refl (omega arith)))
                          (works (begins storage message [] [] refl)))
                        (works (upserts first (row "A7" 5) [] [] refl refl)))
                      (works (commits first (row "A7" 5) (row "A7" 5) [] [] refl)))
                    (works (offers first (row "A7" 5) [] [] refl)))
                  (restarts))
                (delivers message [] [] refl (omega arith)))
              (works (begins storage message [] [] refl)))
            (works (upserts first (row "A7" 5) [] [] refl refl)))
          (works (commits first (row "A7" 5) (row "A7" 5) [] [] refl)))
        (works (offers first (row "A7" 5) [] [] refl)))
      (acknowledges message [] [] refl)

Turns-delivered_example :
    Perm
      (tagged (arrived sample (new_broker world) emptied to_emptied) ++ tagged emptied.again)
      (map (λ c. c.0) (all_published emptied))
    × ((x : Loaded String)
        → Mem x emptied.again
        → Mem x (arrived sample (new_broker world) emptied to_emptied))
    × (emptied.system.world.tables
        ≡ record_all world.tables (map (λ c. c.1) (all_committed emptied)))
    × Perm (all_published emptied ++ emptied.lost) (all_committed emptied)
Turns-delivered_example =
    Turns-delivered sample world emptied to_emptied (record { no_ready = refl; no_flight = refl })

-- The broken message was handled once, and is with the broker again.
abbrev poisoned : Broker String
poisoned = record (new_broker world) {
  ready = loaded (obj poison) ∷ [];
  system = record {
    world = record world { db_error = 1 };
    flight = [];
    committed = [];
    published = [];
  };
}

unfoldable to_poisoned : Turns sample (new_broker world) poisoned
unfolding begin begin_tagged begin_row row_of extract_params item fields_of Dict.get entries ends
    on_message write_to_db
to_poisoned =
    go
      (go (go stay (arrives (loaded (obj poison))))
        (delivers (loaded (obj poison)) [] [] refl (omega arith)))
      (works (begins storage (loaded (obj poison)) [] [] refl))

poison_arrived : Mem (loaded (obj poison)) (arrived sample (new_broker world) poisoned to_poisoned)
unfolding arrived to_poisoned
poison_arrived = mem-cons_self

poison-raises :
    (print : Value String → String) → extract_params sample print poison ≡ raise key_error
unfolding extract_params item fields_of Dict.get entries
poison-raises print = refl

Turns-poison_example :
    Mem (loaded (obj poison)) (poisoned.ready ++ messages_of poisoned.system.flight)
unfolding Dict.get entries
Turns-poison_example =
    Turns-poison sample poison key_error refl poison-raises world poisoned to_poisoned
      poison_arrived

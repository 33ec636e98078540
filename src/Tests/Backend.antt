-- ===== src/Tests/Backend.antt =====
-- Runs of the storage, the consumers, the broadcast, the history and the WebSocket endpoint.
use rtls_stream_visualizer.Base.{
  ℕ, String, ◌≡◌, refl, Option, none, some, [], ◌∷◌, map, true, arith,
}
use rtls_stream_visualizer.Base.Int.{ℤ, pos}
use rtls_stream_visualizer.Base.Dict
use rtls_stream_visualizer.Base.Raise.{ok}
use rtls_stream_visualizer.Python.Value.{
  Value, Integer, null, entries, int, str, obj, integer, Fields, field, end,
}
use rtls_stream_visualizer.Python.Runtime.{loaded, malformed}
use rtls_stream_visualizer.Backend.Params.{item, fields_of, extract_params}
use rtls_stream_visualizer.Backend.Database.{Row, Tables, Storage, row_of, empty_tables}
use rtls_stream_visualizer.Backend.Database.Latest.{IsConsistent}
use rtls_stream_visualizer.Backend.Broadcast.{Broadcast, new_broadcast}
use rtls_stream_visualizer.Backend.Broadcast.Queues.{IsValid}
use rtls_stream_visualizer.Backend.Broadcast.Delivery.{publish_all, filled, publish_all_lem}
use rtls_stream_visualizer.Backend.Consumer.{World, on_messages}
use rtls_stream_visualizer.Backend.Consumer.Outcomes.{on_messages-IsConsistent}
use rtls_stream_visualizer.Backend.History.{position_history}
use rtls_stream_visualizer.Backend.History.Pages.{Answers, position_history-Answers}
use rtls_stream_visualizer.Backend.Socket.Fresh.{Position}
use rtls_stream_visualizer.Tests.Sample.{sample, envelope, position}
use rtls_stream_visualizer.Tests.Order.{sorted, sorted-IsOrderBy}

-- A database that takes texts as tags and integers as timestamps.
abbrev pub columns : Value String → Value String → Option (String × ℤ)
columns (str tag) (integer (int ts)) = some (tag, ts)
columns tag ts = none

abbrev pub storage : Storage String
storage = record { admit = λ p. columns p.tag_id p.ts_utc_ms; print = λ v. "[]" }

abbrev pub first : Fields String
first = envelope (position "A7" 5)

abbrev pub world : World String
world = record {
  tables = empty_tables String;
  broadcast = new_broadcast 2;
  processed = 0;
  malformed_json = 0;
  missing_tag_id = 0;
  db_error = 0;
}

abbrev pub row : String → ℕ → Row String
row tag ts = record {
  tag_id = tag;
  ts_utc_ms = pos ts;
  params = record {
    schema_version = str "1.0";
    event_type = str "position";
    origin = str "ls-1000";
    normalized = integer (Integer.bool true);
    ingested_at_ms = integer (int (pos 9));
    tag_id = str tag;
    ts_utc_ms = integer (int (pos ts));
    source_type = str "unknown";
    status = null;
    layer = null;
    area = null;
    x = null;
    y = null;
    z = null;
    lng = null;
    lat = null;
    raw_message = str "";
    parse_warnings = "[]";
  };
}

row_of_run : row_of sample storage first ≡ ok (row "A7" 5)
unfolding row_of extract_params item fields_of Dict.get entries
row_of_run = refl

pub empty_tables-IsConsistent : IsConsistent (empty_tables String)
unfolding Dict.get
empty_tables-IsConsistent tag = refl

abbrev pub late : Fields String
late = envelope (position "A7" 3)

on_messages-IsConsistent_example :
    IsConsistent
      (on_messages sample
        ((storage, loaded (obj first))
          ∷ (storage, malformed "…")
          ∷ (storage, loaded (obj late))
          ∷ [])
        world).tables
on_messages-IsConsistent_example =
    on_messages-IsConsistent sample
      ((storage, loaded (obj first)) ∷ (storage, malformed "…") ∷ (storage, loaded (obj late)) ∷ [])
      world empty_tables-IsConsistent

-- An envelope whose payload has no timestamp.
abbrev pub poison : Fields String
poison = envelope (field "tag_id" (str "A7") end)

pub at : ℕ → Position String
unfolding Dict.get entries
at ts = record {
  envelope = envelope (position "A7" ts);
  payload = position "A7" ts;
  tag = "A7";
  ts = int (pos ts);
  has_payload = refl;
  has_tag = refl;
  has_ts = refl;
}

abbrev pub two_subscribers : Broadcast ℕ
two_subscribers = record {
  maxsize = 2;
  made = 2;
  subscribers = record { key = 1; items = [] } ∷ record { key = 0; items = 7 ∷ [] } ∷ [];
}

pub two_subscribers-IsValid : IsValid two_subscribers
two_subscribers-IsValid = record {
  fits = (refl, (refl, tt));
  keys = (omega arith, ((λ h. omega arith), tt), (omega arith, tt, tt));
}

publish_all_lem_example : publish_all two_subscribers (8 ∷ 9 ∷ []) ≡ record two_subscribers {
  subscribers = map (filled 2 (8 ∷ 9 ∷ [])) two_subscribers.subscribers;
}
publish_all_lem_example =
    publish_all_lem two_subscribers (8 ∷ 9 ∷ []) (omega arith) two_subscribers-IsValid

abbrev pub stored : Tables String
stored = record {
  position_events = row "A7" 3 ∷ row "B1" 4 ∷ row "A7" 5 ∷ [];
  current_positions = [];
}

position_history-Answers_example :
    Answers sorted sorted-IsOrderBy stored "A7"
      (some (pos 2))
      none
      1
      1
      (position_history sorted stored "A7" (some (pos 2)) none 1 1)
position_history-Answers_example =
    position_history-Answers sorted sorted-IsOrderBy stored "A7" (some (pos 2)) none 1 1

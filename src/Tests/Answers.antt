-- ===== src/Tests/Answers.antt =====
-- Runs of the history endpoint, the WebSocket endpoint, the pool and the application.
use mathlib.Core.List.Permᴰ
use mathlib.Core.Logic.{◌↔◌}
use mathlib.Core.Option.{some-injective}
use rtls_stream_visualizer.Base.{
  ℕ, String, ◌<◌, ◌≡◌, refl, sym, ap, ◌∙◌, true, false, not, Option, none, some, List, [], ◌∷◌, map,
  keep,
}
use rtls_stream_visualizer.Base.Int.{ℤ, pos}
use rtls_stream_visualizer.Base.Dict
use rtls_stream_visualizer.Base.Raise.{Exc, ok}
use rtls_stream_visualizer.Python.Value.{
  Value, int, integer, float, str, obj, Fields, entries, of_entries,
}
use rtls_stream_visualizer.Python.Runtime.{loaded}
use rtls_stream_visualizer.Handler.Event.{as_dict}
use rtls_stream_visualizer.Core.Envelope.{build_v1}
use rtls_stream_visualizer.Backend.Params.{extract_params, item, fields_of}
use rtls_stream_visualizer.Backend.Database.{Row, row_of}
use rtls_stream_visualizer.Backend.Consumer.{on_messages}
use rtls_stream_visualizer.Backend.Consumer.Delivered.{object_of, params_of}
use rtls_stream_visualizer.Backend.History.{HistoryResponse, position_history}
use rtls_stream_visualizer.Backend.Columns.{Column, Readers, row_dict, position_out, history_out}
use rtls_stream_visualizer.Backend.Columns.Answered.{IsTyped, shown, GivesBack, TakesOwn}
use rtls_stream_visualizer.Backend.Columns.Returned.{
  KeepsKeys, history_out-shown, event_out, position_out-object_of,
}
use rtls_stream_visualizer.Backend.Current.{get_all_current_positions}
use rtls_stream_visualizer.Backend.Current.Shown.{is_outdated}
use rtls_stream_visualizer.Backend.Broadcast.{new_broadcast}
use rtls_stream_visualizer.Backend.Socket.{Hub, waiting, open_socket}
use rtls_stream_visualizer.Backend.Socket.Fresh.{Position}
use rtls_stream_visualizer.Backend.Socket.Session.{
  snapshot, envelope, positions_ws, positions_ws-is_outdated,
}
use rtls_stream_visualizer.Backend.Socket.Gauge.{
  Moves, opens, broadcasts, takes, stay, go, IsCounted, Moves-IsCounted,
}
use rtls_stream_visualizer.Backend.Pool.{ConnectionPool, health_check}
use rtls_stream_visualizer.Backend.Pool.Borrowed.{health_check-status_code}
use rtls_stream_visualizer.Backend.Settings.{BackendConfig}
use rtls_stream_visualizer.Tests.Sample.{sample}
use rtls_stream_visualizer.Tests.Handler.{expected}
use rtls_stream_visualizer.Tests.Core.{server, json_datagram}
use rtls_stream_visualizer.Tests.Backend.{at, columns, first, row, storage, stored, world}
use rtls_stream_visualizer.Tests.Order.{sorted, sorted-IsOrderBy}
use rtls_stream_visualizer.Tests.Running.{rabbitmq}

-- A database that changes no value, and a pydantic without conversions.
abbrev same_column : Column String
same_column name v = v

same_column-GivesBack : GivesBack same_column
same_column-GivesBack = record {
  source_type = λ v h. refl;
  origin = λ v h. refl;
  status = λ v h. refl;
  layer = λ v h. refl;
  area = λ v h. refl;
  x = λ v h. refl;
  y = λ v h. refl;
  z = λ v h. refl;
  lng = λ v h. refl;
  lat = λ v h. refl;
}

abbrev text_of : Value String → Option String
text_of (str s) = some s
text_of v = none

abbrev whole_of : Value String → Option ℤ
whole_of (integer (int n)) = some n
whole_of v = none

abbrev number_of : Value String → Option String
number_of (float x) = some x
number_of v = none

abbrev strict : Readers String
strict = record { text = text_of; whole = whole_of; number = number_of }

strict-TakesOwn : TakesOwn strict
strict-TakesOwn = record { text = λ s. refl; whole = λ n. refl; number = λ x. refl }

row-IsTyped : (tag : String) (ts : ℕ) → IsTyped (row tag ts)
row-IsTyped tag ts = record {
  source_type = tt;
  origin = tt;
  status = tt;
  layer = tt;
  area = tt;
  x = tt;
  y = tt;
  z = tt;
  lng = tt;
  lat = tt;
}

history_out-shown_example :
    (page : HistoryResponse String) × (position_history sorted stored "A7" none none 10 0
      ≡ some page)
    × (history_out strict same_column page ≡ some (map shown page.items, page.total))
history_out-shown_example =
    history_out-shown strict strict-TakesOwn same_column same_column-GivesBack sorted
      sorted-IsOrderBy stored "A7" none none 10 0
      (row-IsTyped "A7" 3, (row-IsTyped "B1" 4, (row-IsTyped "A7" 5, tt))) refl

columns-some :
    (a b : Value String) (tag found : String) (ts at : ℤ)
    → a ≡ str tag
    → b ≡ integer (int ts)
    → columns a b ≡ some (found, at)
    → (found ≡ tag) × (at ≡ ts)
columns-some a b tag found ts at text stamp admits =
    let both =
      some-injective _ _ (sym admits ∙ ap (λ v. columns v b) text ∙ ap (columns (str tag)) stamp) in
    (ap (λ o. o.0) both, ap (λ o. o.1) both)

storage-KeepsKeys : KeepsKeys storage
storage-KeepsKeys = record {
  keys = λ p tag found ts at text stamp admits.
      columns-some p.tag_id p.ts_utc_ms tag found ts at text stamp admits;
}

abbrev event_row : Row String
event_row = record {
  tag_id = "00A320";
  ts_utc_ms = pos 1700000000123;
  params = params_of sample storage server json_datagram expected "ls-1000";
}

event_row-made :
    row_of sample storage (object_of sample storage server json_datagram expected "ls-1000")
    ≡ ok event_row
unfolding row_of extract_params item fields_of Dict.get entries as_dict build_v1 of_entries
event_row-made = refl

position_out-object_of_example :
    position_out strict (row_dict same_column event_row)
    ≡ some (event_out expected "ls-1000" (pos 1700000000123) (some (pos 2)))
position_out-object_of_example =
    position_out-object_of sample storage server storage-KeepsKeys strict strict-TakesOwn
      same_column same_column-GivesBack json_datagram expected "ls-1000" (pos 1700000000123)
      (some (pos 2)) event_row refl refl event_row-made

abbrev hub : Hub (Fields String)
hub = record { broadcast = new_broadcast 2; connections = 0 }

positions_ws-is_outdated_example :
    let after = (on_messages sample ((storage, loaded (obj first)) ∷ []) world).tables in
    let rows = get_all_current_positions (λ rows. rows) after in
    let kept = keep (λ p. not (is_outdated after p)) (at 4 ∷ at 6 ∷ []) in
    positions_ws sample same_column
      (record {
        accepts = ok tt;
        found = ok rows;
        stays = true;
        received = map (λ p. (p.envelope, true)) (at 4 ∷ at 6 ∷ []);
      })
      (λ h. h)
      hub
    ≡ (
      some waiting,
      (
        snapshot (map (row_dict same_column) rows)
            ∷ map (λ e. envelope e) (map (λ (p : Position String). p.envelope) kept),
        (open_socket hub).1,
      ),
    )
positions_ws-is_outdated_example =
    positions_ws-is_outdated sample same_column (λ rows. rows) (λ rows. Permᴰ.refl rows)
      ((storage, loaded (obj first)) ∷ []) world (at 4 ∷ at 6 ∷ []) (λ h. h) hub (tt, tt)

abbrev numbers : Hub ℕ
numbers = record { broadcast = new_broadcast 1; connections = 0 }

-- Two connections open, and the first one takes what was broadcast.
two_open : (hub : Hub ℕ) × Moves numbers hub
two_open = (_, go (go (go (go stay opens) opens) (broadcasts 7)) (takes 0))

Moves-IsCounted_example : IsCounted two_open.0
Moves-IsCounted_example = Moves-IsCounted 1 two_open.0 two_open.1

abbrev pool : ConnectionPool
pool = record { conninfo = ""; min_size = 4; max_size = 20; timeout = 10; borrowed = 1 }

abbrev one_row : Exc (Option (List ℕ))
one_row = ok (some (1 ∷ []))

health_check-status_code_example :
    (((health_check false one_row pool).0.status_code ≡ 200)
      ↔ ((1 < 20) × (one_row ≡ ok (some (1 ∷ [])))))
    × ((health_check false one_row pool).1 ≡ pool)
health_check-status_code_example = health_check-status_code one_row pool

abbrev config : BackendConfig
config = record { api_host = "0.0.0.0"; api_port = pos 8000; dsn = ""; rabbitmq = rabbitmq }

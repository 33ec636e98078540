-- ===== src/Backend/Columns/Returned.antt =====
-- What the history endpoint answers of the events that the consumer stored.
use rtls_stream_visualizer.Base.{
  String, ℕ, ◌≡◌, refl, sym, ap, ap₂, ◌∙◌, subst, Bool, true, Option, none, some, List, [], ◌∷◌,
  map, All, All-take, All-drop, keep, leb, ◌&&◌, arith,
}
use rtls_stream_visualizer.Base.Int.{ℤ}
use rtls_stream_visualizer.Base.Raise.{ok, ok_injective}
use rtls_stream_visualizer.Python.Value.{Integer, int, integer, str}
use rtls_stream_visualizer.Python.Runtime.{Runtime}
use rtls_stream_visualizer.Handler.Event.{NormalizedEvent, of_float, of_text, of_integer}
use rtls_stream_visualizer.Core.Server.State.{UdpServer, Datagram}
use rtls_stream_visualizer.Backend.Params.{Params}
use rtls_stream_visualizer.Backend.Database.{Row, Tables, Storage, row_of}
use rtls_stream_visualizer.Backend.Consumer.Delivered.{
  object_of, params_of, stored, row_of-stored, extract_params-object_of,
}
use rtls_stream_visualizer.Backend.History.{
  HistoryResponse, position_history, get_position_history, count_position_history, where_tag,
}
use rtls_stream_visualizer.Backend.History.Pages.{IsOrderBy}
use rtls_stream_visualizer.Backend.Columns.{
  Column, row_dict, PositionOut, Readers, position_out, history_out,
}
use rtls_stream_visualizer.Backend.Columns.Answered.{
  IsText, IsNullable, IsWhole, IsNumber, text_or_none, number_or_none, whole_or_none, IsTyped,
  shown, GivesBack, TakesOwn, position_out-shown, items_out-shown,
}

All-kept {ℓ κ} :
    {A : Type ℓ} (P : A → Type κ) (p : A → Bool) (xs : List A) → All P xs → All P (keep p xs)
All-kept P p [] h = tt
All-kept P p (x ∷ xs) (q, h) = ground (arith, All-kept P p xs h)

module _ {F : Type 0} (read : Readers F) (own : TakesOwn read) (column : Column F)
    (back : GivesBack column) (order : List (Row F) → List (Row F)) (H : IsOrderBy order) where
  page-IsTyped :
      (t : Tables F) (tag : String) (from_ts to_ts : Option ℤ) (limit offset : ℕ)
      → All IsTyped t.position_events
      → All IsTyped (get_position_history order t tag from_ts to_ts limit offset)
  unfolding get_position_history where_tag
  page-IsTyped t tag from_ts to_ts limit offset h =
      All-take IsTyped limit _
        (All-drop IsTyped offset _ (H.same_rows IsTyped _ (All-kept IsTyped _ t.position_events h)))

  -- While every stored row has values of its columns' types, PostgreSQL gives back what it has admitted
  -- and pydantic takes a value of a field's own type: a request for a page of allowed size is answered,
  -- never by a ValidationError, with what the rows of that page hold and the total.
  pub history_out-shown :
      (t : Tables F) (tag : String) (from_ts to_ts : Option ℤ) (limit offset : ℕ)
      → All IsTyped t.position_events
      → (leb 1 limit && leb limit 1000) ≡ true
      → (page : HistoryResponse F) × (position_history order t tag from_ts to_ts limit offset
          ≡ some page)
        × (history_out read column page ≡ some (map shown page.items, page.total))
  unfolding position_history history_out
  history_out-shown t tag from_ts to_ts limit offset h allowed = (
    record {
      items = get_position_history order t tag from_ts to_ts limit offset;
      total = count_position_history t tag from_ts to_ts;
    },
    rw allowed refl,
    rw (items_out-shown read own column back _ (page-IsTyped t tag from_ts to_ts limit offset h))
        refl,
  )

-- An int that is no bool, as a layer.
abbrev pub int_layer : Option ℤ → Option Integer
int_layer none = none
int_layer (some n) = some (int n)

module _ (F : Type 0) where
  IsNullable-of_text : (t : Option String) → IsNullable {F = F} IsText (of_text t)
  IsNullable-of_text none = tt
  IsNullable-of_text (some s) = tt

  IsNullable-of_float : (x : Option F) → IsNullable IsNumber (of_float x)
  IsNullable-of_float none = tt
  IsNullable-of_float (some x) = tt

  text_or_none-of_text : (t : Option String) → text_or_none {F = F} (of_text t) ≡ t
  text_or_none-of_text none = refl
  text_or_none-of_text (some s) = refl

  number_or_none-of_float : (x : Option F) → number_or_none (of_float x) ≡ x
  number_or_none-of_float none = refl
  number_or_none-of_float (some x) = refl

  IsNullable-int_layer : (n : Option ℤ) → IsNullable {F = F} IsWhole (of_integer (int_layer n))
  IsNullable-int_layer none = tt
  IsNullable-int_layer (some n) = tt

  whole_or_none-int_layer : (n : Option ℤ) → whole_or_none {F = F} (of_integer (int_layer n)) ≡ n
  whole_or_none-int_layer none = refl
  whole_or_none-int_layer (some n) = refl

-- What is shown of an event.
abbrev pub event_out : {F : Type 0} → NormalizedEvent F → String → ℤ → Option ℤ → PositionOut F
event_out e origin ts layer = record {
  tag_id = e.tag_id;
  ts_utc_ms = ts;
  source_type = e.source_type;
  origin = origin;
  status = e.status;
  layer = layer;
  area = e.area;
  x = e.x;
  y = e.y;
  z = e.z;
  lng = e.lng;
  lat = e.lat;
}

-- The columns of the two keys take a text and an int as they are, where they take them.
pub record KeepsKeys {F : Type 0} (S : Storage F) : Type 0 where
  pub keys :
      (p : Params F) (tag found : String) (ts at : ℤ)
      → p.tag_id ≡ str tag
      → p.ts_utc_ms ≡ integer (int ts)
      → S.admit p ≡ some (found, at)
      → (found ≡ tag) × (at ≡ ts)

module _ (R : Runtime) (S : Storage R.Float) (server : UdpServer R.Float) (kept : KeepsKeys S)
    (read : Readers R.Float) (own : TakesOwn read) (column : Column R.Float)
    (back : GivesBack column) where
  event-IsTyped :
      (d : Datagram R.Float) (e : NormalizedEvent R.Float) (origin : String) (layer : Option ℤ)
      (tag : String) (at : ℤ)
      → e.layer ≡ int_layer layer
      → IsTyped (record { tag_id = tag; ts_utc_ms = at; params = params_of R S server d e origin })
  event-IsTyped d e origin layer tag at whole = record {
    source_type = tt;
    origin = tt;
    status = IsNullable-of_text R.Float e.status;
    layer = rw whole (IsNullable-int_layer R.Float layer);
    area = IsNullable-of_text R.Float e.area;
    x = IsNullable-of_float R.Float e.x;
    y = IsNullable-of_float R.Float e.y;
    z = IsNullable-of_float R.Float e.z;
    lng = IsNullable-of_float R.Float e.lng;
    lat = IsNullable-of_float R.Float e.lat;
  }

  shown-event_out :
      (d : Datagram R.Float) (e : NormalizedEvent R.Float) (origin : String) (ts : ℤ)
      (layer : Option ℤ)
      → e.layer ≡ int_layer layer
      → shown
          (record { tag_id = e.tag_id; ts_utc_ms = ts; params = params_of R S server d e origin })
        ≡ event_out e origin ts layer
  unfolding shown
  shown-event_out d e origin ts layer whole =
      rw
        (
          whole,
          whole_or_none-int_layer R.Float layer,
          text_or_none-of_text R.Float e.status,
          text_or_none-of_text R.Float e.area,
          number_or_none-of_float R.Float e.x,
          number_or_none-of_float R.Float e.y,
          number_or_none-of_float R.Float e.z,
          number_or_none-of_float R.Float e.lng,
          number_or_none-of_float R.Float e.lat,
        )
        refl

  from_admitted :
      (d : Datagram R.Float) (e : NormalizedEvent R.Float) (origin : String) (ts : ℤ)
      (layer : Option ℤ) (row : Row R.Float)
      → e.ts_utc_ms ≡ int ts
      → e.layer ≡ int_layer layer
      → (found : Option (String × ℤ)) → S.admit (params_of R S server d e origin) ≡ found
      → stored R S server (params_of R S server d e origin) found ≡ ok row
      → position_out read (row_dict column row) ≡ some (event_out e origin ts layer)
  from_admitted d e origin ts layer row stamp whole none admits made = cc
  from_admitted d e origin ts layer row stamp whole (some (tag, at)) admits made =
      let params = params_of R S server d e origin in
      let (same_tag, same_ts) =
        kept.keys params e.tag_id tag ts at refl (ap integer stamp) admits in
      let typed = event-IsTyped d e origin layer e.tag_id ts whole in
      subst (λ r. position_out read (row_dict column r) ≡ some (event_out e origin ts layer))
        (ap₂ (λ (k : String) (n : ℤ). record { tag_id = k; ts_utc_ms = n; params = params })
            (sym same_tag) (sym same_ts)
          ∙ ok_injective made)
        (position_out-shown read own column back _ typed
          ∙ ap some (shown-event_out d e origin ts layer whole))

  -- From an event to the answer of the history endpoint: the row that the consumer makes of an
  -- event's envelope is answered with the origin of the envelope and, as they were, the event's
  -- tag, timestamp, source type, status, layer, area, x, y, z, lng and lat; the raw message and the
  -- warnings are not in the answer. The event's timestamp is an int and its layer, if it has one,
  -- too, and PostgreSQL and pydantic keep values of a column's and a field's own type.
  pub position_out-object_of :
      (d : Datagram R.Float) (e : NormalizedEvent R.Float) (origin : String) (ts : ℤ)
      (layer : Option ℤ) (row : Row R.Float)
      → e.ts_utc_ms ≡ int ts
      → e.layer ≡ int_layer layer
      → row_of R S (object_of R S server d e origin) ≡ ok row
      → position_out read (row_dict column row) ≡ some (event_out e origin ts layer)
  position_out-object_of d e origin ts layer row stamp whole made =
      let params = params_of R S server d e origin in
      let admitted : stored R S server params (S.admit params) ≡ ok row =
        sym (
          row_of-stored R S server (object_of R S server d e origin) params
            (extract_params-object_of R S server d e origin))
        ∙ made in
      from_admitted d e origin ts layer row stamp whole (S.admit params) refl admitted

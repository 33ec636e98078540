-- ===== src/Backend/Columns.antt =====
-- The rows that backend/repository/positions.py returns, as dicts of their columns, and `PositionOut`
-- of backend/api/schemas.py, which backend/api/positions.py makes of them.
pub mod Answered
pub mod Returned
use rtls_stream_visualizer.Base.{String, ℕ, Option, none, some, List, [], ◌∷◌}
use rtls_stream_visualizer.Base.Int.{ℤ}
use rtls_stream_visualizer.Base.Dict
use rtls_stream_visualizer.Base.Dict.{Dict}
use rtls_stream_visualizer.Python.Value.{Value, null, int, integer, float, str}
use rtls_stream_visualizer.Backend.Database.{Row}
use rtls_stream_visualizer.Backend.History.{HistoryResponse}

-- `_CURRENT_POS_COLUMNS`, which is `_HISTORY_COLUMNS` too.
abbrev pub current_pos_columns : List String
current_pos_columns =
    "tag_id" ∷ "ts_utc_ms" ∷ "source_type" ∷ "status" ∷ "layer" ∷ "area" ∷ "x" ∷ "y" ∷ "z" ∷ "lng"
    ∷ "lat" ∷ "origin" ∷ []

-- dict(zip(keys, values))
zip_onto : {V : Type 0} → Dict V → List String → List V → Dict V
zip_onto d (k ∷ ks) (v ∷ vs) = zip_onto (Dict.set d k v) ks vs
zip_onto d ks vs = d

unfoldable pub dict_zip : {V : Type 0} → List String → List V → Dict V
unfolding zip_onto
dict_zip ks vs = zip_onto [] ks vs

-- What PostgreSQL gives back of a value that it has admitted to a column, by the column's name.
abbrev pub Column : Type 0 → Type 0
Column F = String → Value F → Value F

module _ {F : Type 0} (column : Column F) where
  -- SELECT tag_id, ts_utc_ms, source_type, status, layer, area, x, y, z, lng, lat, origin
  unfoldable pub select : Row F → List (Value F)
  select row =
      let p = row.params in
      str row.tag_id
      ∷ integer (int row.ts_utc_ms)
      ∷ column "source_type" p.source_type
      ∷ column "status" p.status
      ∷ column "layer" p.layer
      ∷ column "area" p.area
      ∷ column "x" p.x
      ∷ column "y" p.y
      ∷ column "z" p.z
      ∷ column "lng" p.lng
      ∷ column "lat" p.lat
      ∷ column "origin" p.origin
      ∷ []

  unfoldable pub row_dict : Row F → Dict (Value F)
  unfolding select dict_zip
  row_dict row = dict_zip current_pos_columns (select row)

-- `PositionOut`
pub record PositionOut (F : Type 0) : Type 0 where
  pub tag_id : String
  pub ts_utc_ms : ℤ
  pub source_type : String
  pub origin : String
  pub status : Option String
  pub layer : Option ℤ
  pub area : Option String
  pub x : Option F
  pub y : Option F
  pub z : Option F
  pub lng : Option F
  pub lat : Option F

-- How pydantic reads a field of a type; none is a ValidationError.
pub record Readers (F : Type 0) : Type 0 where
  pub text : Value F → Option String
  pub whole : Value F → Option ℤ
  pub number : Value F → Option F

infixl 5 ◌>>=◌
abbrev pub ◌>>=◌ : {A : Type 0} {B : Type 0} → Option A → (A → Option B) → Option B
none >>= f = none
some a >>= f = f a

abbrev present : {A : Type 0} → Option A → Option (Option A)
present none = none
present (some a) = some (some a)

-- The body of the answer: its items and the total.
abbrev pub Answer : Type 0 → Type 0
Answer F = List (PositionOut F) × ℕ

module _ {F : Type 0} where
  abbrev pub required : {A : Type 0} → (Value F → Option A) → Option (Value F) → Option A
  required read none = none
  required read (some v) = read v

  -- A field `… | None = None`
  abbrev pub optional : {A : Type 0} → (Value F → Option A) → Option (Value F) → Option (Option A)
  optional read none = some none
  optional read (some null) = some none
  optional read (some v) = present (read v)

  -- PositionOut(**row)
  unfoldable pub position_out : Readers F → Dict (Value F) → Option (PositionOut F)
  position_out read row = do
    tag_id ← required read.text (Dict.get row "tag_id")
    ts_utc_ms ← required read.whole (Dict.get row "ts_utc_ms")
    source_type ← required read.text (Dict.get row "source_type")
    origin ← required read.text (Dict.get row "origin")
    status ← optional read.text (Dict.get row "status")
    layer ← optional read.whole (Dict.get row "layer")
    area ← optional read.text (Dict.get row "area")
    x ← optional read.number (Dict.get row "x")
    y ← optional read.number (Dict.get row "y")
    z ← optional read.number (Dict.get row "z")
    lng ← optional read.number (Dict.get row "lng")
    lat ← optional read.number (Dict.get row "lat")
    some (record {
      tag_id = tag_id;
      ts_utc_ms = ts_utc_ms;
      source_type = source_type;
      origin = origin;
      status = status;
      layer = layer;
      area = area;
      x = x;
      y = y;
      z = z;
      lng = lng;
      lat = lat;
    })

  unfoldable pub items_out : Readers F → Column F → List (Row F) → Option (List (PositionOut F))
  unfolding position_out row_dict
  items_out read column [] = some []
  items_out read column (row ∷ rows) = do
    item ← position_out read (row_dict column row)
    items ← items_out read column rows
    some (item ∷ items)

  -- The end of `position_history`; none is an exception, and so status 500.
  unfoldable pub history_out : Readers F → Column F → HistoryResponse F → Option (Answer F)
  unfolding items_out
  history_out read column answer = do
    items ← items_out read column answer.items
    some (items, answer.total)

-- ===== src/Backend/Columns/Answered.antt =====
-- The events that are answered: each field of an event comes back.
use rtls_stream_visualizer.Base.{
  String, ◌≡◌, refl, ap, ◌∙◌, Option, none, some, List, [], ◌∷◌, map, All,
}
use rtls_stream_visualizer.Base.Int.{ℤ}
use rtls_stream_visualizer.Base.Dict
use rtls_stream_visualizer.Python.Value.{Value, null, int, integer, float, str}
use rtls_stream_visualizer.Backend.Database.{Row}
use rtls_stream_visualizer.Backend.Columns.{
  current_pos_columns, required, optional, dict_zip, Column, select, row_dict, PositionOut, Readers,
  position_out, items_out,
}

module _ {F : Type 0} where
  -- Values of the types of the columns, a null where the column allows it, and what they stand for.
  abbrev pub IsText : Value F → Type 0
  IsText (str s) = Unit
  IsText v = ⊥

  abbrev pub IsNullable : (Value F → Type 0) → Value F → Type 0
  IsNullable P null = Unit
  IsNullable P v = P v

  abbrev pub IsWhole : Value F → Type 0
  IsWhole (integer (int n)) = Unit
  IsWhole v = ⊥

  abbrev pub IsNumber : Value F → Type 0
  IsNumber (float x) = Unit
  IsNumber v = ⊥

  abbrev pub text_in : Value F → String
  text_in (str s) = s
  text_in v = ""

  abbrev pub text_or_none : Value F → Option String
  text_or_none (str s) = some s
  text_or_none v = none

  abbrev pub whole_or_none : Value F → Option ℤ
  whole_or_none (integer (int n)) = some n
  whole_or_none v = none

  abbrev pub number_or_none : Value F → Option F
  number_or_none (float x) = some x
  number_or_none v = none

  -- A row whose columns have values of their types.
  pub record IsTyped (row : Row F) : Type 0 where
    pub source_type : IsText row.params.source_type
    pub origin : IsText row.params.origin
    pub status : IsNullable IsText row.params.status
    pub layer : IsNullable IsWhole row.params.layer
    pub area : IsNullable IsText row.params.area
    pub x : IsNullable IsNumber row.params.x
    pub y : IsNullable IsNumber row.params.y
    pub z : IsNullable IsNumber row.params.z
    pub lng : IsNullable IsNumber row.params.lng
    pub lat : IsNullable IsNumber row.params.lat

  -- What is shown of a row.
  unfoldable pub shown : Row F → PositionOut F
  shown row = record {
    tag_id = row.tag_id;
    ts_utc_ms = row.ts_utc_ms;
    source_type = text_in row.params.source_type;
    origin = text_in row.params.origin;
    status = text_or_none row.params.status;
    layer = whole_or_none row.params.layer;
    area = text_or_none row.params.area;
    x = number_or_none row.params.x;
    y = number_or_none row.params.y;
    z = number_or_none row.params.z;
    lng = number_or_none row.params.lng;
    lat = number_or_none row.params.lat;
  }

  -- PostgreSQL gives back what it has admitted, in a column of this type.
  abbrev pub Keeps : Column F → (Value F → Type 0) → String → Type 0
  Keeps column P name = (v : Value F) → IsNullable P v → column name v ≡ v

  pub record GivesBack (column : Column F) : Type 0 where
    pub source_type : Keeps column IsText "source_type"
    pub origin : Keeps column IsText "origin"
    pub status : Keeps column IsText "status"
    pub layer : Keeps column IsWhole "layer"
    pub area : Keeps column IsText "area"
    pub x : Keeps column IsNumber "x"
    pub y : Keeps column IsNumber "y"
    pub z : Keeps column IsNumber "z"
    pub lng : Keeps column IsNumber "lng"
    pub lat : Keeps column IsNumber "lat"

  -- pydantic takes a value of the field's own type as it is.
  pub record TakesOwn (read : Readers F) : Type 0 where
    pub text : (s : String) → read.text (str s) ≡ some s
    pub whole : (n : ℤ) → read.whole (integer (int n)) ≡ some n
    pub number : (x : F) → read.number (float x) ≡ some x

module _ {F : Type 0} (read : Readers F) (own : TakesOwn read) where
  IsNullable-IsText : (v : Value F) → IsText v → IsNullable IsText v
  IsNullable-IsText (str s) h = tt
  IsNullable-IsText null h = tt
  IsNullable-IsText v h = h

  required_text : (v : Value F) → IsText v → required read.text (some v) ≡ some (text_in v)
  required_text (str s) h = own.text s
  required_text v h = absurd h

  optional_text :
      (v : Value F) → IsNullable IsText v → optional read.text (some v) ≡ some (text_or_none v)
  optional_text null h = refl
  optional_text (str s) h = rw (own.text s) refl
  optional_text v h = absurd h

  optional_whole :
      (v : Value F) → IsNullable IsWhole v → optional read.whole (some v) ≡ some (whole_or_none v)
  optional_whole null h = refl
  optional_whole (integer (int n)) h = rw (own.whole n) refl
  optional_whole v h = absurd h

  optional_number :
      (v : Value F)
      → IsNullable IsNumber v
      → optional read.number (some v) ≡ some (number_or_none v)
  optional_number null h = refl
  optional_number (float x) h = rw (own.number x) refl
  optional_number v h = absurd h

  module _ (column : Column F) (back : GivesBack column) where
    select-typed : (row : Row F) → IsTyped row → select column row ≡ select (λ name v. v) row
    unfolding select
    select-typed row h =
        rw
          (
            back.source_type row.params.source_type
                (IsNullable-IsText row.params.source_type h.source_type),
            back.status row.params.status h.status,
            back.layer row.params.layer h.layer,
            back.area row.params.area h.area,
            back.x row.params.x h.x,
            back.y row.params.y h.y,
            back.z row.params.z h.z,
            back.lng row.params.lng h.lng,
            back.lat row.params.lat h.lat,
            back.origin row.params.origin (IsNullable-IsText row.params.origin h.origin),
          )
          refl

    pub position_out-shown :
        (row : Row F) → IsTyped row → position_out read (row_dict column row) ≡ some (shown row)
    unfolding position_out row_dict shown Dict.get Dict.set
    position_out-shown row h =
        ap (λ values. position_out read (dict_zip current_pos_columns values)) (select-typed row h)
        ∙ rw
            (
              own.text row.tag_id,
              own.whole row.ts_utc_ms,
              required_text row.params.source_type h.source_type,
              required_text row.params.origin h.origin,
              optional_text row.params.status h.status,
              optional_whole row.params.layer h.layer,
              optional_text row.params.area h.area,
              optional_number row.params.x h.x,
              optional_number row.params.y h.y,
              optional_number row.params.z h.z,
              optional_number row.params.lng h.lng,
              optional_number row.params.lat h.lat,
            )
            refl

    pub items_out-shown :
        (rows : List (Row F))
        → All IsTyped rows
        → items_out read column rows ≡ some (map shown rows)
    unfolding items_out
    items_out-shown [] h = refl
    items_out-shown (row ∷ rows) (p, h) = rw (position_out-shown row p, items_out-shown rows h) refl

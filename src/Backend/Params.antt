-- ===== src/Backend/Params.antt =====
-- `_extract_params` of backend/repository/positions.py.
use rtls_stream_visualizer.Base.{String, Option, none, some}
use rtls_stream_visualizer.Base.Raise.{Exc, ok, raise, key_error, attribute_error, ◌>>=◌}
use rtls_stream_visualizer.Python.Value.{Value, Items, null, str, arr, obj, Fields, end, lookup}
use rtls_stream_visualizer.Python.Runtime.{Runtime}

-- The parameters of the INSERT statements.
pub record Params (F : Type 0) : Type 0 where
  pub schema_version : Value F
  pub event_type : Value F
  pub origin : Value F
  pub normalized : Value F
  pub ingested_at_ms : Value F
  pub tag_id : Value F
  pub ts_utc_ms : Value F
  pub source_type : Value F
  pub status : Value F
  pub layer : Value F
  pub area : Value F
  pub x : Value F
  pub y : Value F
  pub z : Value F
  pub lng : Value F
  pub lat : Value F
  pub raw_message : Value F
  -- json.dumps(warnings)
  pub parse_warnings : String

module _ {F : Type 0} where
  -- d.get(key, default)
  abbrev pub get_or : Fields F → String → Value F → Value F
  get_or fs key default = elim (lookup fs key) [ none ↦ default | some v ↦ v ]

  abbrev or_key_error : Option (Value F) → Exc (Value F)
  or_key_error none = raise key_error
  or_key_error (some v) = ok v

  -- d[key]
  unfoldable pub item : Fields F → String → Exc (Value F)
  item fs key = or_key_error (lookup fs key)

  -- d.get of a value that is no dict raises.
  unfoldable pub fields_of : Value F → Exc (Fields F)
  fields_of (obj fs) = ok fs
  fields_of v = raise attribute_error

module _ (R : Runtime) where
  -- `json.dumps` stands last in the source too; its separators there are the default ones, and the
  -- printer is the parameter `print`.
  unfoldable pub extract_params : (Value R.Float → String) → Fields R.Float → Exc (Params R.Float)
  extract_params print envelope = do
    payload ← fields_of (get_or envelope "payload" (obj end))
    let warnings = get_or payload "parse_warnings" (arr Items.nil)
    schema_version ← item envelope "schema_version"
    event_type ← item envelope "event_type"
    origin ← item envelope "origin"
    normalized ← item envelope "normalized"
    ingested_at_ms ← item envelope "ingested_at_ms"
    tag_id ← item payload "tag_id"
    ts_utc_ms ← item payload "ts_utc_ms"
    ok (record {
      schema_version = schema_version;
      event_type = event_type;
      origin = origin;
      normalized = normalized;
      ingested_at_ms = ingested_at_ms;
      tag_id = tag_id;
      ts_utc_ms = ts_utc_ms;
      source_type = get_or payload "source_type" (str "unknown");
      status = get_or payload "status" null;
      layer = get_or payload "layer" null;
      area = get_or payload "area" null;
      x = get_or payload "x" null;
      y = get_or payload "y" null;
      z = get_or payload "z" null;
      lng = get_or payload "lng" null;
      lat = get_or payload "lat" null;
      raw_message = get_or payload "raw_message" (str "");
      parse_warnings = print warnings;
    })

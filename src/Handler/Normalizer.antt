-- ===== src/Handler/Normalizer.antt =====
-- stream_handler/json_normalizer.py: any JSON object with a tag becomes an event.
pub mod Events
use rtls_stream_visualizer.Base.{
  String, Bool, true, false, ◌||◌, Option, none, some, List, [], ◌∷◌, if◌then◌else◌, is_some,
}
use rtls_stream_visualizer.Base.Int.{ℤ}
use rtls_stream_visualizer.Base.Raise.{Exc, ok, raise, attribute_error, ◌>>=◌}
use rtls_stream_visualizer.Python.Text.{strip}
use rtls_stream_visualizer.Python.Number.{int_of_text}
use rtls_stream_visualizer.Python.Value.{
  Integer, int, Value, null, integer, float, str, arr, obj, Fields, lookup,
}
use rtls_stream_visualizer.Python.Runtime.{Runtime}
use rtls_stream_visualizer.Handler.Event.{NormalizedEvent}
use rtls_stream_visualizer.Handler.Ls1000.Read.{parse_float, first_str, as_int}
use rtls_stream_visualizer.Handler.Ls1000.Coords.{Xyz, or_null}

module _ (R : Runtime) where
  -- `_parse_int`: no hexadecimal texts, unlike the one of the LS-1000 parser.
  unfoldable pub parse_int : Value R.Float → Exc (Option Integer)
  parse_int null = ok none
  parse_int (integer n) = ok (some n)
  parse_int (float x) = do n ← R.int_of_float x; ok (some (int n))
  parse_int (str s) = ok (as_int (int_of_text R (strip s)))
  parse_int (arr _) = ok none
  parse_int (obj _) = ok none

  -- The loop of `_first_int` and `_first_float`. `_parse_float` and `_first_str` have the bodies
  -- of the LS-1000 parser's.
  unfoldable pub first_of_values {ℓ} :
      {A : Type ℓ}
      → (Value R.Float → Exc (Option A))
      → Fields R.Float
      → List String
      → Exc (Option A)
  first_of_values parse fs [] = ok none
  first_of_values parse fs (key ∷ keys) =
      let rest = first_of_values parse fs keys in
      do value ← parse (or_null (lookup fs key)); elim value [ none ↦ rest | some a ↦ ok (some a) ]

  unfoldable pub first_int : Fields R.Float → List String → Exc (Option Integer)
  first_int = first_of_values parse_int

  unfoldable pub first_float : Fields R.Float → List String → Exc (Option R.Float)
  first_float = first_of_values (parse_float R)

  -- `_first_float(fields, "x")`, "y", "z"
  unfoldable pub flat_xyz : Fields R.Float → Exc (Xyz R.Float)
  flat_xyz fs = do
    x ← first_float fs ("x" ∷ [])
    y ← first_float fs ("y" ∷ [])
    z ← first_float fs ("z" ∷ [])
    ok (x, y, z)

  abbrev any_some : Xyz R.Float → Bool
  any_some (x, y, z) = is_some x || is_some y || is_some z

  -- The position's coordinates if it has one, else those of the object.
  unfoldable pub extract_xyz : Fields R.Float → Exc (Xyz R.Float)
  unfolding flat_xyz
  extract_xyz fs = elim (or_null (lookup fs "position")) [
    | obj position ↦ do xyz ← flat_xyz position; if any_some xyz then ok xyz else flat_xyz fs
    | _ ↦ flat_xyz fs
  ]

  -- The timestamp and the warnings; `now` is int(time.time() * 1000).
  abbrev pub stamp : ℤ → Option Integer → Integer × List String
  stamp now none = (int now, "timestamp_missing_used_ingestion_time" ∷ [])
  stamp now (some ts) = (ts, [])

  -- `normalize` once the tag has been found.
  unfoldable pub event_of :
      String → ℤ → Fields R.Float → String → String → Exc (NormalizedEvent R.Float)
  event_of origin now fs raw_message tag_id = do
    found ← first_int fs ("ts_utc_ms" ∷ "timestamp" ∷ "ts" ∷ [])
    (x, y, z) ← extract_xyz fs
    lng ← first_float fs ("lng" ∷ "lon" ∷ "longitude" ∷ [])
    lat ← first_float fs ("lat" ∷ "latitude" ∷ [])
    layer ← first_int fs ("layer" ∷ "layid" ∷ "floor" ∷ [])
    ok (record {
      origin = origin;
      tag_id = tag_id;
      ts_utc_ms = (stamp now found).0;
      x = x;
      y = y;
      z = z;
      layer = layer;
      area = first_str R fs ("area" ∷ "rgn" ∷ []);
      status = first_str R fs ("status" ∷ []);
      source_type = "json";
      raw_message = raw_message;
      lng = lng;
      lat = lat;
      parse_warnings = (stamp now found).1;
    })

  -- obj.get of a value that is no dict raises.
  unfoldable pub normalize :
      String → ℤ → Value R.Float → String → Exc (Option (NormalizedEvent R.Float))
  normalize origin now (obj fs) raw_message =
      elim (first_str R fs ("tag_id" ∷ "devid" ∷ "dev_id" ∷ "tag" ∷ "id" ∷ [])) [
        | none ↦ ok none
        | some tag_id ↦ do e ← event_of origin now fs raw_message tag_id; ok (some e)
      ]
  normalize origin now value raw_message = raise attribute_error

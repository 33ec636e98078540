-- ===== src/Handler/Ls1000/Json.antt =====
-- `_parse_json` and `_is_ls1000_json` of stream_handler/ls1000_parser.py.
use Prim.Native.String
use rtls_stream_visualizer.Base.{
  String, Bool, true, false, ◌&&◌, ◌||◌, Option, none, some, [], ◌∷◌, if◌then◌else◌, is_some,
}
use rtls_stream_visualizer.Base.Raise.{Exc, ok, raise, attribute_error, ◌>>=◌}
use rtls_stream_visualizer.Python.Value.{Value, null, arr, obj, Fields, lookup}
use rtls_stream_visualizer.Python.Runtime.{Runtime, Loaded, loaded, malformed, failed}
use rtls_stream_visualizer.Handler.Ls1000.Read.{first_int, first_float, first_str}
use rtls_stream_visualizer.Handler.Ls1000.Coords.{xyz_from_json}
use rtls_stream_visualizer.Handler.Ls1000.Messages.{Parsed, err, event, accept}

module _ {F : Type 0} where
  abbrev is_object : Option (Value F) → Bool
  is_object none = true
  is_object (some null) = true
  is_object (some (obj _)) = true
  is_object (some _) = false

  abbrev is_array : Option (Value F) → Bool
  is_array none = true
  is_array (some null) = true
  is_array (some (arr _)) = true
  is_array (some _) = false

  unfoldable pub is_ls1000_json : Fields F → Bool
  is_ls1000_json fs =
      (is_some (lookup fs "devid")
        || is_some (lookup fs "seq")
        || is_some (lookup fs "samples")
        || is_some (lookup fs "position"))
      && is_object (lookup fs "position")
      && is_array (lookup fs "samples")

module _ (R : Runtime) (raw_message : String) where
  -- What follows once the tag and the timestamp have been looked up, in the order of the source.
  unfoldable pub parse_object : Fields R.Float → Exc (Parsed R.Float)
  parse_object fs =
      if is_ls1000_json fs
      then (elim (first_str R fs ("tag_id" ∷ "devid" ∷ "dev_id" ∷ "tag" ∷ "id" ∷ [])) [
        | none ↦ ok (err raw_message "json" "missing_field" "Missing tag id in JSON payload")
        | some tag ↦ do
          ts ← first_int R fs ("ts_utc_ms" ∷ "timestamp" ∷ "ts" ∷ [])
          elim ts [
            | none ↦ ok (err raw_message "json" "missing_field" "Missing timestamp in JSON payload")
            | some t ↦ do
              (x, y, z) ← xyz_from_json R fs
              lng ← first_float R fs ("lng" ∷ "lon" ∷ "longitude" ∷ [])
              lat ← first_float R fs ("lat" ∷ "latitude" ∷ [])
              layer ← first_int R fs ("layer" ∷ "layid" ∷ "floor" ∷ [])
              let status = first_str R fs ("status" ∷ [])
              let area = first_str R fs ("area" ∷ [])
              let e = event raw_message "json" tag t layer
              ok (
                  accept (record e {
                    x = x;
                    y = y;
                    z = z;
                    area = area;
                    status = status;
                    lng = lng;
                    lat = lat;
                  }))
          ]
      ])
      else ok (
          err raw_message "json" "unsupported_json_payload"
            "JSON payload does not match LS-1000 markers")

  -- A text that begins with "{" decodes to an object or to nothing; `in` and `get` of another
  -- value would raise.
  unfoldable pub parse_loaded : Loaded R.Float → Exc (Parsed R.Float)
  unfolding parse_object
  parse_loaded (malformed reason) =
      ok (err raw_message "json" "invalid_json" (String.◌++◌ "Invalid JSON: " reason))
  parse_loaded (failed e) = raise e
  parse_loaded (loaded (obj fs)) = parse_object fs
  parse_loaded (loaded v) = raise attribute_error

  unfoldable pub parse_json : String → Exc (Parsed R.Float)
  unfolding parse_loaded
  parse_json text = parse_loaded (R.loads text)

-- ===== src/Handler/Ls1000/Messages.antt =====
-- `_parse_display`, `_parse_status1`, `_parse_status2` and `_parse_gpsposi` of
-- stream_handler/ls1000_parser.py. The tests on `len(tokens)` are the patterns.
use rtls_stream_visualizer.Base.{String, Option, none, some, List, [], ◌∷◌}
use rtls_stream_visualizer.Base.Raise.{Exc, ok, ◌>>=◌}
use rtls_stream_visualizer.Python.Value.{Integer}
use rtls_stream_visualizer.Python.Runtime.{Runtime}
use rtls_stream_visualizer.Handler.Event.{NormalizedEvent, ParseError}
use rtls_stream_visualizer.Handler.Ls1000.Read.{parse_int_text, parse_float_text, safe_token}
use rtls_stream_visualizer.Handler.Ls1000.Coords.{xyz_from_tokens}

-- `tuple[Optional[NormalizedEvent], Optional[ParseError]]`
abbrev pub Parsed : Type 0 → Type 0
Parsed F = Option (NormalizedEvent F) × Option ParseError

module _ {F : Type 0} where
  -- `_err(raw_message, source_type, code, message)`
  abbrev pub err : String → String → String → String → Parsed F
  err raw source code message = (
    none,
    some (record { code = code; message = message; raw_message = raw; source_type = source }),
  )

  -- An event of the parser, without the fields that most messages leave None.
  abbrev pub event : String → String → String → Integer → Option Integer → NormalizedEvent F
  event raw source tag ts layer = record {
    origin = "ls-1000";
    tag_id = tag;
    ts_utc_ms = ts;
    x = none;
    y = none;
    z = none;
    layer = layer;
    area = none;
    status = none;
    source_type = source;
    raw_message = raw;
    lng = none;
    lat = none;
    parse_warnings = [];
  }

  abbrev pub accept : NormalizedEvent F → Parsed F
  accept e = (some e, none)

-- `… if x is None else None`
abbrev pub unless {ℓ κ} : {A : Type ℓ} {B : Type κ} → Option A → Option B → Option B
unless none b = b
unless (some a) b = none

module _ (R : Runtime) (raw : String) where
  unfoldable pub parse_display : List String → Exc (Parsed R.Float)
  parse_display (len ∷ tag ∷ seq ∷ ts ∷ lay ∷ rest) = elim (parse_int_text R ts) [
    | none ↦ ok (err raw "display" "invalid_timestamp" "Invalid TIMESTAMP field")
    | some t ↦ do
      (x, y, z) ← xyz_from_tokens R rest
      let area = unless x (safe_token (len ∷ tag ∷ seq ∷ ts ∷ lay ∷ rest) 6)
      let e = event raw "display" tag t (parse_int_text R lay)
      ok (accept (record e { x = x; y = y; z = z; area = area }))
  ]
  parse_display _ = ok (err raw "display" "invalid_payload" "display requires at least 5 fields")

  unfoldable pub parse_status1 : List String → Parsed R.Float
  parse_status1 (len ∷ kind ∷ tag ∷ ts ∷ vbat ∷ lay ∷ rest) = elim (parse_int_text R ts) [
    | none ↦ err raw "status1" "invalid_timestamp" "Invalid TIMESTAMP field"
    | some t ↦
        let status = safe_token (len ∷ kind ∷ tag ∷ ts ∷ vbat ∷ lay ∷ rest) 7 in
        let e = event raw "status1" tag t (parse_int_text R lay) in
        accept (record e { status = status })
  ]
  parse_status1 _ = err raw "status1" "invalid_payload" "status1 requires at least 6 fields"

  -- `self._parse_int(tokens[4]) if len(tokens) > 4 else None`
  abbrev pub layer_of : List String → Option Integer
  layer_of [] = none
  layer_of (lay ∷ rest) = parse_int_text R lay

  unfoldable pub parse_status2 : List String → Parsed R.Float
  parse_status2 (len ∷ tag ∷ seq ∷ ts ∷ rest) = elim (parse_int_text R ts) [
    | none ↦ err raw "status2" "invalid_timestamp" "Invalid TIMESTAMP field"
    | some t ↦ accept (event raw "status2" tag t (layer_of rest))
  ]
  parse_status2 _ = err raw "status2" "invalid_payload" "status2 requires at least 4 fields"

  abbrev pub height_of : List String → Option R.Float
  height_of [] = none
  height_of (z ∷ rest) = parse_float_text R z

  -- The answer once both coordinates have been read.
  gps_event : NormalizedEvent R.Float → Option R.Float → Option R.Float → Parsed R.Float
  gps_event e (some lng) (some lat) = accept (record e { lng = some lng; lat = some lat })
  gps_event e _ _ = err raw "gpsposi" "invalid_coordinates" "Invalid lng/lat values"

  unfoldable pub parse_gpsposi : List String → Parsed R.Float
  unfolding gps_event
  parse_gpsposi (len ∷ tag ∷ seq ∷ ts ∷ lay ∷ lng ∷ lat ∷ rest) = elim (parse_int_text R ts) [
    | none ↦ err raw "gpsposi" "invalid_timestamp" "Invalid TIMESTAMP field"
    | some t ↦
        let e = event raw "gpsposi" tag t (parse_int_text R lay) in
        gps_event (record e { z = height_of rest }) (parse_float_text R lng)
          (parse_float_text R lat)
  ]
  parse_gpsposi _ = err raw "gpsposi" "invalid_payload" "gpsposi requires at least 7 fields"

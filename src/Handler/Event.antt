-- ===== src/Handler/Event.antt =====
-- The dataclasses of stream_handler/ls1000_parser.py, and `asdict` of an event.
use rtls_stream_visualizer.Base.{String, Option, none, some, List, [], ◌∷◌}
use rtls_stream_visualizer.Base.Dict.{Dict}
use rtls_stream_visualizer.Python.Value.{Integer, Value, Items, null, integer, float, str, arr}

pub record NormalizedEvent (F : Type 0) : Type 0 where
  pub origin : String
  pub tag_id : String
  pub ts_utc_ms : Integer
  pub x : Option F
  pub y : Option F
  pub z : Option F
  pub layer : Option Integer
  pub area : Option String
  pub status : Option String
  pub source_type : String
  pub raw_message : String
  pub lng : Option F
  pub lat : Option F
  pub parse_warnings : List String

pub record ParseError : Type 0 where
  pub code : String
  pub message : String
  pub raw_message : String
  pub source_type : String

module _ {F : Type 0} where
  abbrev pub of_float : Option F → Value F
  of_float none = null
  of_float (some x) = float x

  abbrev pub of_integer : Option Integer → Value F
  of_integer none = null
  of_integer (some n) = integer n

  abbrev pub of_text : Option String → Value F
  of_text none = null
  of_text (some s) = str s

  pub of_texts : List String → Items F
  of_texts [] = Items.nil
  of_texts (s ∷ l) = Items.cons (str s) (of_texts l)

  -- asdict(event)
  unfoldable pub as_dict : NormalizedEvent F → Dict (Value F)
  unfolding of_texts
  as_dict e =
      ("origin", str e.origin)
      ∷ ("tag_id", str e.tag_id)
      ∷ ("ts_utc_ms", integer e.ts_utc_ms)
      ∷ ("x", of_float e.x)
      ∷ ("y", of_float e.y)
      ∷ ("z", of_float e.z)
      ∷ ("layer", of_integer e.layer)
      ∷ ("area", of_text e.area)
      ∷ ("status", of_text e.status)
      ∷ ("source_type", str e.source_type)
      ∷ ("raw_message", str e.raw_message)
      ∷ ("lng", of_float e.lng)
      ∷ ("lat", of_float e.lat)
      ∷ ("parse_warnings", arr (of_texts e.parse_warnings))
      ∷ []

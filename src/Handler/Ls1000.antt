-- ===== src/Handler/Ls1000.antt =====
-- `LS1000Parser.parse_message` of stream_handler/ls1000_parser.py.
pub mod Read
pub mod Coords
pub mod Messages
pub mod Json
pub mod Outcome
pub mod Accepts
pub mod Total
pub mod Framing
use Prim.Native.String.{[] as nil, ◌∷◌ as cons}
use Prim.Native.String
use rtls_stream_visualizer.Base.{
  String, Bool, true, false, not, ◌||◌, none, some, List, [], ◌∷◌, map, if◌then◌else◌, ◌==◌,
}
use rtls_stream_visualizer.Base.Raise.{Exc, ok, ◌>>=◌}
use rtls_stream_visualizer.Python.Text.{strip, contains, begins, before, after, split}
use rtls_stream_visualizer.Python.Runtime.{Runtime, lower}
use Messages.{Parsed, err, parse_display, parse_status1, parse_status2, parse_gpsposi}
use Json.{parse_json}

-- `source_type in self._UNSUPPORTED_TYPES` and `… in self._BASE_TYPES`
abbrev pub is_unsupported : String → Bool
is_unsupported t = t == "warning" || t == "summary" || t == "rawdata"

abbrev pub is_base : String → Bool
is_base t = t == "display" || t == "status1" || t == "status2" || t == "gpsposi"

-- `any(token for token in tokens)`
unfoldable pub any_token : List String → Bool
any_token [] = false
any_token (nil ∷ tokens) = any_token tokens
any_token (cons c s ∷ tokens) = true

-- f"<before>{source_type}<behind>"
abbrev quoted : String → String → String → String
quoted front source_type behind = String.◌++◌ front (String.◌++◌ source_type behind)

module _ (R : Runtime) (raw_message : String) where
  -- The handler of a base type.
  unfoldable pub parse_base : String → List String → Exc (Parsed R.Float)
  parse_base source_type tokens =
      if source_type == "display"
      then parse_display R raw_message tokens
      else if source_type == "status1"
      then ok (parse_status1 R raw_message tokens)
      else if source_type == "status2"
      then ok (parse_status2 R raw_message tokens)
      else ok (parse_gpsposi R raw_message tokens)

  -- A message '<type>:<payload>', from the line that splits it on.
  unfoldable pub parse_typed : String → List String → Exc (Parsed R.Float)
  unfolding parse_base any_token
  parse_typed source_type tokens =
      if is_unsupported source_type
      then ok (
          err raw_message source_type "unsupported_message_type"
            (quoted "Message type '" source_type "' is not included in MVP"))
      else if not (is_base source_type)
      then ok (
          err raw_message source_type "unknown_message_type"
            (quoted "Unknown message type '" source_type "'"))
      else if not (any_token tokens)
      then ok (err raw_message source_type "invalid_payload" "Payload is empty")
      else parse_base source_type tokens

  -- The branches on the stripped message; 123 is "{" and 58 is ":".
  unfoldable pub parse_stripped : String → Exc (Parsed R.Float)
  unfolding parse_typed
  parse_stripped nil = ok (err raw_message "unknown" "empty_message" "Message is empty")
  parse_stripped (cons c s) =
      let raw = cons c s in
      if begins 123 raw
      then parse_json R raw_message raw
      else if not (contains 58 raw)
      then ok (err raw_message "unknown" "invalid_format" "Expected '<type>:<payload>' format")
      else parse_typed (lower R (strip (before 58 raw))) (map strip (split 44 (after 58 raw)))

  unfoldable pub parse_message : Exc (Parsed R.Float)
  unfolding parse_stripped
  parse_message = parse_stripped (strip raw_message)

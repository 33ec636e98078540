-- ===== src/Tests/Handler.antt =====
-- Runs of the LS-1000 parser and the JSON normalizer, after the program's own tests.
use rtls_stream_visualizer.Base.{String, map, ◌≡◌, refl, none, some, List, [], ◌∷◌, true}
use rtls_stream_visualizer.Base.Int.{pos, negsuc}
use rtls_stream_visualizer.Base.Raise.{ok, Returns}
use rtls_stream_visualizer.Python.Text.{strip, contains, before, after, split, lower_ascii}
use rtls_stream_visualizer.Python.Value.{int, obj}
use rtls_stream_visualizer.Python.Runtime.{lower, decimal}
use rtls_stream_visualizer.Python.Number.{int_of_text, int_of_hex}
use rtls_stream_visualizer.Python.Coord.{find_from, find_all, coord}
use rtls_stream_visualizer.Handler.Event.{NormalizedEvent}
use rtls_stream_visualizer.Handler.Ls1000.Read.{parse_int_text, parse_float_text, safe_token}
use rtls_stream_visualizer.Handler.Ls1000.Coords.{xyz_from_tokens}
use rtls_stream_visualizer.Handler.Ls1000.Messages.{parse_display}
use rtls_stream_visualizer.Handler.Ls1000.{parse_base, parse_typed, parse_message}
use rtls_stream_visualizer.Handler.Ls1000.Outcome.{Outcome, parse_message-Outcome}
use rtls_stream_visualizer.Handler.Ls1000.Accepts.{Agrees, parse_base-Agrees}
use rtls_stream_visualizer.Handler.Ls1000.Framing.{parse_message-message}
use rtls_stream_visualizer.Handler.Ls1000.Total.{AcceptsCoords, returned, parse_message-returned}
use rtls_stream_visualizer.Handler.Normalizer.{normalize}
use rtls_stream_visualizer.Handler.Normalizer.Events.{Answer, normalize-Answer}
use rtls_stream_visualizer.Tests.Sample.{sample, lenient, doc}

ints :
    (parse_int_text sample " 1700000000123 " ≡ some (int (pos 1700000000123)))
    × (parse_int_text sample "-1_0" ≡ some (int (negsuc 9)))
    × (parse_int_text sample "0x1F" ≡ some (int (pos 31)))
    × (parse_int_text sample "1__0" ≡ none)
    × (parse_int_text sample "" ≡ none)
unfolding parse_int_text strip int_of_text int_of_hex decimal
ints = (refl, refl, refl, refl, refl)

candidates : find_all sample "x=9.65;y=-3.;z=+1.50" ≡ "9.65" ∷ "-3" ∷ "+1.50" ∷ []
unfolding find_from coord decimal
candidates = refl

abbrev pub display_text : String
display_text = " Display : 68,00A320,1614,1700000000123,2,9.65,3.27,1.50,101"

abbrev pub expected : NormalizedEvent String
expected = record {
  origin = "ls-1000";
  tag_id = "00A320";
  ts_utc_ms = int (pos 1700000000123);
  x = some "9.65";
  y = some "3.27";
  z = some "1.50";
  layer = some (int (pos 2));
  area = none;
  status = none;
  source_type = "display";
  raw_message = display_text;
  lng = none;
  lat = none;
  parse_warnings = [];
}

display_run : parse_message sample display_text ≡ ok (some expected, none)
unfolding parse_message strip contains before after split lower lower_ascii parse_display
    parse_int_text int_of_text decimal xyz_from_tokens parse_float_text safe_token
display_run = refl

unknown_run :
    parse_message sample "foo:1,2,3"
    ≡ ok (
      none,
      some (record {
        code = "unknown_message_type";
        message = "Unknown message type 'foo'";
        raw_message = "foo:1,2,3";
        source_type = "foo";
      }),
    )
unfolding parse_message strip contains before after split lower lower_ascii
unknown_run = refl

parse_message-Outcome_example : Returns (Outcome display_text) (parse_message sample display_text)
parse_message-Outcome_example = parse_message-Outcome sample display_text

abbrev gps_tokens : List String
gps_tokens = "84" ∷ "01DD4E" ∷ "10481" ∷ "1700000000999" ∷ "4" ∷ "37.6173" ∷ "north" ∷ []

parse_base-Agrees_example :
    Returns
      (Agrees sample "gpsposi" gps_tokens)
      (parse_base sample "gpsposi:…" "gpsposi" gps_tokens)
parse_base-Agrees_example = parse_base-Agrees sample "gpsposi:…" "gpsposi" gps_tokens refl

lenient-AcceptsCoords : AcceptsCoords lenient
lenient-AcceptsCoords = record { accepts = λ s m h. refl }

parse_message-returned_example : returned (parse_message lenient display_text) ≡ true
unfolding strip
parse_message-returned_example =
    parse_message-returned lenient lenient-AcceptsCoords display_text refl

normalize-Answer_example :
    Returns
      (Answer sample "some-device" (pos 7) doc "{doc}")
      (normalize sample "some-device" (pos 7) (obj doc) "{doc}")
normalize-Answer_example = normalize-Answer sample "some-device" (pos 7) doc "{doc}"

-- The text of the display message, from its parts.
parse_message-message_example :
    parse_message sample display_text
    ≡ parse_typed sample display_text (lower sample (strip "Display ")) (
        map strip (
          " 68" ∷ "00A320" ∷ "1614" ∷ "1700000000123" ∷ "2" ∷ "9.65" ∷ "3.27" ∷ "1.50" ∷ "101"
          ∷ []))
unfolding strip contains
parse_message-message_example =
    parse_message-message sample display_text "Display " " 68"
      ("00A320" ∷ "1614" ∷ "1700000000123" ∷ "2" ∷ "9.65" ∷ "3.27" ∷ "1.50" ∷ "101" ∷ []) refl refl
      refl (refl, (refl, (refl, (refl, (refl, (refl, (refl, (refl, (refl, tt)))))))))

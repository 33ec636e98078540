-- ===== src/Tests/Sample.antt =====
-- A runtime for the tests: floats are kept as their texts, and one JSON text is known.
use Prim.Native.String.{[] as nil, ◌∷◌ as cons}
use rtls_stream_visualizer.Base.{
  ℕ, String, code, Bool, true, false, ◌&&◌, ◌==◌, none, some, leb, if◌then◌else◌,
}
use rtls_stream_visualizer.Base.Int.{pos}
use rtls_stream_visualizer.Base.Raise.{raise, value_error}
use rtls_stream_visualizer.Python.Value.{Integer, int, integer, float, str, obj, Fields, field, end}
use rtls_stream_visualizer.Python.Runtime.{Runtime, loaded, malformed}

-- Texts that begin with a small letter are no numbers.
abbrev is_number : String → Bool
is_number nil = false
is_number (cons c s) = if leb 97 (code c) && leb (code c) 122 then false else true

-- The payload of a position, with trace keys.
abbrev pub doc : Fields String
doc = field "tag_id" (str " A7 ") (
    field "ts_utc_ms" (integer (int (pos 5)))
      (field "traceparent" (str "00-1") (field "x" (float "1.5") end)))

abbrev pub sample : Runtime
sample = record {
  Float = String;
  float_of_int = λ n. some "int";
  float_of_text = λ s. if is_number s then some s else none;
  int_of_float = λ x. raise value_error;
  float_lt = λ x n. false;
  lower_wide = λ c. cons c nil;
  decimal_wide = λ c. none;
  repr = λ v. "value";
  loads = λ s. if s == "{doc}" then loaded (obj doc) else malformed "no JSON";
  dumps = λ v. "{doc}";
}

-- The same, with a `float()` that reads every text.
abbrev pub lenient : Runtime
lenient = record {
  Float = String;
  float_of_int = λ n. some "int";
  float_of_text = λ s. some s;
  int_of_float = λ x. raise value_error;
  float_lt = λ x n. false;
  lower_wide = λ c. cons c nil;
  decimal_wide = λ c. none;
  repr = λ v. "value";
  loads = λ s. malformed "no JSON";
  dumps = λ v. "{doc}";
}

-- An envelope around a payload.
abbrev pub envelope : Fields String → Fields String
envelope payload = field "schema_version" (str "1.0") (
    field "event_type" (str "position") (
      field "origin" (str "ls-1000") (
        field "normalized" (integer (Integer.bool true))
          (field "ingested_at_ms" (integer (int (pos 9))) (field "payload" (obj payload) end)))))

abbrev pub position : String → ℕ → Fields String
position tag ts = field "tag_id" (str tag) (field "ts_utc_ms" (integer (int (pos ts))) end)

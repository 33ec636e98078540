-- ===== src/Handler/Ls1000/Read.antt =====
-- The readers of `LS1000Parser` in stream_handler/ls1000_parser.py: `_parse_int`, `_parse_float`,
-- `_first_int`, `_first_float`, `_first_str`, `_safe_token`.
use Prim.Native.String.{[] as nil, ◌∷◌ as cons}
use rtls_stream_visualizer.Base.{
  ℕ, String, Option, none, some, List, [], ◌∷◌, if◌then◌else◌, get_elem?,
}
use rtls_stream_visualizer.Base.Int.{ℤ}
use rtls_stream_visualizer.Base.Raise.{Exc, ok, raise, overflow_error, ◌>>=◌}
use rtls_stream_visualizer.Python.Text.{strip}
use rtls_stream_visualizer.Python.Value.{
  Integer, int, number_of, Value, null, integer, float, str, arr, obj, Fields, lookup,
}
use rtls_stream_visualizer.Python.Runtime.{Runtime, text_of}
use rtls_stream_visualizer.Python.Number.{int_of_text, int_of_hex, has_hex_prefix}

-- `token or None`
abbrev pub non_empty : String → Option String
non_empty nil = none
non_empty (cons c s) = some (cons c s)

-- None where the index is past the tokens.
abbrev stripped : Option String → Option String
stripped none = none
stripped (some token) = non_empty (strip token)

unfoldable pub safe_token : List String → ℕ → Option String
safe_token tokens index = stripped (get_elem? tokens index)

abbrev pub as_int : Option ℤ → Option Integer
as_int none = none
as_int (some n) = some (int n)

module _ (R : Runtime) where
  -- `_parse_int` of a stripped text
  unfoldable pub int_of_stripped : String → Option ℤ
  int_of_stripped text = if has_hex_prefix R text then int_of_hex R text else int_of_text R text

  -- `_parse_int` of a text; an empty one is refused by `int_of_text`.
  unfoldable pub parse_int_text : String → Option Integer
  unfolding int_of_stripped
  parse_int_text s = as_int (int_of_stripped (strip s))

  unfoldable pub parse_int : Value R.Float → Exc (Option Integer)
  parse_int null = ok none
  parse_int (integer n) = ok (some n)
  parse_int (float x) = do n ← R.int_of_float x; ok (some (int n))
  parse_int (str s) = ok (parse_int_text s)
  parse_int (arr _) = ok none
  parse_int (obj _) = ok none

  -- `_parse_float` of a text
  abbrev float_of_stripped : String → Option R.Float
  float_of_stripped nil = none
  float_of_stripped (cons c s) = R.float_of_text (cons c s)

  unfoldable pub parse_float_text : String → Option R.Float
  parse_float_text s = float_of_stripped (strip s)

  -- float(n) of an int that is too large raises OverflowError.
  abbrev pub float_of_number : Option R.Float → Exc (Option R.Float)
  float_of_number none = raise overflow_error
  float_of_number (some x) = ok (some x)

  unfoldable pub parse_float : Value R.Float → Exc (Option R.Float)
  parse_float null = ok none
  parse_float (integer n) = float_of_number (R.float_of_int (number_of n))
  parse_float (float x) = ok (some x)
  parse_float (str s) = ok (parse_float_text s)
  parse_float (arr _) = ok none
  parse_float (obj _) = ok none

  -- The loop that `_first_int` and `_first_float` share: a missing key and a value that is not read
  -- as a number are passed over.
  unfoldable pub first_of_keys {ℓ} :
      {A : Type ℓ}
      → (Value R.Float → Exc (Option A))
      → Fields R.Float
      → List String
      → Exc (Option A)
  first_of_keys parse fs [] = ok none
  first_of_keys parse fs (key ∷ keys) =
      let rest = first_of_keys parse fs keys in
      elim (lookup fs key) [
        | none ↦ rest
        | some v ↦ do value ← parse v; elim value [ none ↦ rest | some a ↦ ok (some a) ]
      ]

  unfoldable pub first_int : Fields R.Float → List String → Exc (Option Integer)
  unfolding first_of_keys
  first_int = first_of_keys parse_int

  unfoldable pub first_float : Fields R.Float → List String → Exc (Option R.Float)
  unfolding first_of_keys
  first_float = first_of_keys parse_float

  -- One key of `_first_str`: an absent or null value, and a blank text, are passed over.
  unfoldable pub text_at : Option (Value R.Float) → Option String
  text_at none = none
  text_at (some null) = none
  text_at (some v) = non_empty (strip (text_of R v))

  unfoldable pub first_str : Fields R.Float → List String → Option String
  first_str fs [] = none
  first_str fs (key ∷ keys) =
      let rest = first_str fs keys in
      elim (text_at (lookup fs key)) [ none ↦ rest | some s ↦ some s ]

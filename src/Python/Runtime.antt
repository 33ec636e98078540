-- ===== src/Python/Runtime.antt =====
-- What the model leaves to the Python runtime: floats, the Unicode tables behind ASCII, the printed
-- form of values and the JSON codec. Every definition that uses these takes a `Runtime`.
use Prim.Native.String.{[] as nil, ◌∷◌ as cons}
use Prim.Native.String
use rtls_stream_visualizer.Base.{
  ℕ, ◌-◌, ◌&&◌, String, Char, code, Bool, Option, some, if◌then◌else◌, ltb, leb,
}
use rtls_stream_visualizer.Base.Int.{ℤ}
use rtls_stream_visualizer.Base.Raise.{Exc, Exception}
use rtls_stream_visualizer.Python.Text.{lower_ascii}
use rtls_stream_visualizer.Python.Value.{Value, str}

-- What `json.loads` does: a value, a `JSONDecodeError` with its text, or another exception.
pub data Loaded (F : Type 0) : Type 0 where
  loaded : Value F → Loaded F
  malformed : String → Loaded F
  failed : Exception → Loaded F

pub record Runtime : Type 1 where
  pub Float : Type 0
  -- `float(n)` of an int: none is an `OverflowError`.
  pub float_of_int : ℤ → Option Float
  -- `float(s)` of a text: none is a `ValueError`.
  pub float_of_text : String → Option Float
  -- `int(x)` of a float raises on NaN and the infinities.
  pub int_of_float : Float → Exc ℤ
  -- `x < n` of a float and an int
  pub float_lt : Float → ℤ → Bool
  -- `c.lower()` and the decimal value of a character outside ASCII.
  pub lower_wide : Char → String
  pub decimal_wide : Char → Option ℕ
  -- `str(v)` of a value that is no text.
  pub repr : Value Float → String
  -- json.loads, and json.dumps(…, ensure_ascii=False, separators=(",", ":")).
  pub loads : String → Loaded Float
  pub dumps : Value Float → String

module _ (R : Runtime) where
  abbrev pub lower_char : Char → String
  lower_char c = if ltb (code c) 128 then cons (lower_ascii c) nil else R.lower_wide c

  -- s.lower()
  unfoldable pub lower : String → String
  lower nil = nil
  lower (cons c s) = String.◌++◌ (lower_char c) (lower s)

  -- The decimal value of a digit; `\d` and `int()` take the same characters.
  unfoldable pub decimal : Char → Option ℕ
  decimal c =
      if ltb (code c) 128
      then (if leb 48 (code c) && leb (code c) 57 then some (code c - 48) else Option.none)
      else R.decimal_wide c

  -- str(v)
  unfoldable pub text_of : Value R.Float → String
  text_of (str s) = s
  text_of v = R.repr v

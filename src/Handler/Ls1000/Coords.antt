-- ===== src/Handler/Ls1000/Coords.antt =====
-- `_extract_xyz_from_tokens` and `_extract_xyz_from_json` of stream_handler/ls1000_parser.py.
use rtls_stream_visualizer.Base.{String, Option, none, some, List, [], ◌∷◌}
use rtls_stream_visualizer.Base.Raise.{Exc, ok, raise, value_error, ◌>>=◌}
use rtls_stream_visualizer.Python.Value.{Value, null, obj, Fields, lookup}
use rtls_stream_visualizer.Python.Runtime.{Runtime}
use rtls_stream_visualizer.Python.Coord.{find_all}
use rtls_stream_visualizer.Handler.Ls1000.Read.{parse_float, parse_float_text, first_float}

-- The triple `x, y, z` that the extractors return.
abbrev pub Xyz : Type 0 → Type 0
Xyz F = Option F × Option F × Option F

abbrev pub no_xyz : {F : Type 0} → Xyz F
no_xyz = (none, none, none)

-- obj.get(key) for a value that may be missing is None
abbrev pub or_null : {F : Type 0} → Option (Value F) → Value F
or_null none = null
or_null (some v) = v

module _ (R : Runtime) where
  -- `float(candidate)` outside any `try`
  unfoldable pub float_or_raise : Option R.Float → Exc R.Float
  float_or_raise none = raise value_error
  float_or_raise (some x) = ok x

  -- Three numbers or more in one token.
  unfoldable pub from_candidates : List String → Exc (Xyz R.Float)
  unfolding float_or_raise
  from_candidates (a ∷ b ∷ c ∷ rest) = do
    x ← float_or_raise (R.float_of_text a)
    y ← float_or_raise (R.float_of_text b)
    z ← float_or_raise (R.float_of_text c)
    ok (some x, some y, some z)
  from_candidates _ = ok no_xyz

  -- The test on the three fields; the second attempt reads the first token alone.
  unfoldable pub all_or : Xyz R.Float → Exc (Xyz R.Float) → Exc (Xyz R.Float)
  all_or (some x, some y, some z) second = ok (some x, some y, some z)
  all_or _ second = second

  -- `_extract_xyz_from_tokens(tokens, start)`, the argument being `tokens[start:]`.
  unfoldable pub xyz_from_tokens : List String → Exc (Xyz R.Float)
  unfolding from_candidates all_or
  xyz_from_tokens [] = ok no_xyz
  xyz_from_tokens (a ∷ b ∷ c ∷ rest) =
      all_or (parse_float_text R a, parse_float_text R b, parse_float_text R c)
        (from_candidates (find_all R a))
  xyz_from_tokens (a ∷ rest) = from_candidates (find_all R a)

  -- `self._first_float(obj, "x")` and so on
  abbrev flat_xyz : Fields R.Float → Exc (Xyz R.Float)
  flat_xyz fs = do
    x ← first_float R fs ("x" ∷ [])
    y ← first_float R fs ("y" ∷ [])
    z ← first_float R fs ("z" ∷ [])
    ok (x, y, z)

  unfoldable pub xy_or : Xyz R.Float → Exc (Xyz R.Float) → Exc (Xyz R.Float)
  xy_or (some x, some y, z) flat = ok (some x, some y, z)
  xy_or _ flat = flat

  unfoldable pub xyz_from_json : Fields R.Float → Exc (Xyz R.Float)
  unfolding xy_or
  xyz_from_json fs = elim (or_null (lookup fs "position")) [
    | obj position ↦ do
      x ← parse_float R (or_null (lookup position "x"))
      y ← parse_float R (or_null (lookup position "y"))
      z ← parse_float R (or_null (lookup position "z"))
      xy_or (x, y, z) (flat_xyz fs)
    | _ ↦ flat_xyz fs
  ]

-- ===== src/Python/Coord.antt =====
-- `_COORD_RE = re.compile(r"[-+]?\d+(?:\.\d+)?")` and its `findall`.
use Prim.Native.String.{[] as nil, ◌∷◌ as cons}
use Prim.Native.String
use rtls_stream_visualizer.Base.{
  ℕ, zero, suc, ◌-◌, ◌||◌, String, Char, code, Bool, Option, some, none, List, [], ◌∷◌,
  if◌then◌else◌, eqb, is_some,
}
use rtls_stream_visualizer.Python.Text.{count}
use rtls_stream_visualizer.Python.Runtime.{Runtime, decimal}

module _ (R : Runtime) where
  abbrev pub is_digit : Char → Bool
  is_digit c = is_some (decimal R c)

  -- `\d*` at the front of a text, and what is behind it.
  unfoldable pub digit_run : String → String
  digit_run nil = nil
  digit_run (cons c s) = let rest = digit_run s in if is_digit c then cons c rest else nil

  unfoldable pub past_run : String → String
  past_run nil = nil
  past_run (cons c s) = let rest = past_run s in if is_digit c then rest else cons c s

  -- `(?:\.\d+)?`
  unfoldable pub fraction : String → String
  unfolding digit_run
  fraction nil = nil
  fraction (cons c s) =
      if eqb (code c) 46
      then (elim (digit_run s) [ nil ↦ nil | cons d ds ↦ cons c (cons d ds) ])
      else nil

  -- `\d+(?:\.\d+)?`
  unfoldable pub unsigned : String → Option String
  unfolding digit_run past_run fraction
  unsigned s = elim (digit_run s) [
    | nil ↦ none
    | cons d ds ↦ some (String.◌++◌ (cons d ds) (fraction (past_run s)))
  ]

  abbrev pub signed : Char → Option String → Option String
  signed c none = none
  signed c (some m) = some (cons c m)

  -- The match at the front of a text.
  unfoldable pub coord : String → Option String
  unfolding unsigned
  coord nil = none
  coord (cons c s) =
      if eqb (code c) 45 || eqb (code c) 43 then signed c (unsigned s) else unsigned (cons c s)

  -- `findall`: a search goes on behind each match; `skip` counts what is left of the last one.
  unfoldable pub find_from : ℕ → String → List String
  find_from skip nil = []
  find_from zero (cons c s) = elim (coord (cons c s)) [
    | none ↦ find_from zero s
    | some m ↦ m ∷ find_from (count m - 1) s
  ]
  find_from (suc skip) (cons c s) = find_from skip s

  abbrev pub find_all : String → List String
  find_all s = find_from 0 s

-- ===== src/Python/Number.antt =====
-- `int(text)` and `int(text, 16)` of a stripped text.
use Prim.Native.String.{[] as nil, ◌∷◌ as cons}
use rtls_stream_visualizer.Base.{
  ℕ, suc, ◌+◌, ◌*◌, ◌-◌, ◌&&◌, ◌||◌, String, Char, code, Bool, true, false, Option, some, none,
  if◌then◌else◌, ltb, leb, eqb,
}
use rtls_stream_visualizer.Base.Int.{ℤ, pos, neg_ℕ}
use rtls_stream_visualizer.Python.Runtime.{Runtime, decimal}

-- int() refuses a decimal text of more digits (`sys.int_info.default_max_str_digits`).
abbrev pub max_str_digits : ℕ
max_str_digits = 4300

-- The digits of an int literal with single underscores between them: the number and how many
-- digits it has. `closed` says that the last character was a digit.
unfoldable pub digits : (Char → Option ℕ) → ℕ → Bool → ℕ → ℕ → String → Option (ℕ × ℕ)
digits value base closed acc n nil = if closed then some (acc, n) else none
digits value base closed acc n (cons c s) = elim (value c) [
  | some d ↦ digits value base true (acc * base + d) (suc n) s
  | none ↦
      let rest = digits value base false acc n s in if eqb (code c) 95 && closed then rest else none
]

within_limit : Option (ℕ × ℕ) → Option ℕ
within_limit none = none
within_limit (some (v, n)) = if ltb max_str_digits n then none else some v

module _ (R : Runtime) where
  unfoldable pub natural : String → Option ℕ
  unfolding within_limit digits
  natural s = within_limit (digits (decimal R) 10 false 0 0 s)

  abbrev negated : Option ℕ → Option ℤ
  negated none = none
  negated (some v) = some (neg_ℕ v)

  abbrev positive : Option ℕ → Option ℤ
  positive none = none
  positive (some v) = some (pos v)

  -- int(text), none on a ValueError
  unfoldable pub int_of_text : String → Option ℤ
  unfolding natural
  int_of_text nil = none
  int_of_text (cons c s) =
      if eqb (code c) 45
      then negated (natural s)
      else if eqb (code c) 43
      then positive (natural s)
      else positive (natural (cons c s))

  unfoldable pub hex_digit : Char → Option ℕ
  unfolding decimal
  hex_digit c =
      if leb 97 (code c) && leb (code c) 102
      then some (code c - 87)
      else if leb 65 (code c) && leb (code c) 70
      then some (code c - 55)
      else decimal R c

  -- int(text, 16) of a text that begins with "0x" or "0X": an underscore may follow the prefix, and
  -- no limit on the digits applies.
  unfoldable pub int_of_hex : String → Option ℤ
  unfolding hex_digit digits
  int_of_hex (cons z (cons x (cons u s))) =
      elim (digits hex_digit 16 false 0 0 (if eqb (code u) 95 then s else cons u s)) [
        | none ↦ none
        | some (v, n) ↦ some (pos v)
      ]
  int_of_hex s = none

  -- text.lower().startswith("0x")
  abbrev pub has_hex_prefix : String → Bool
  has_hex_prefix (cons z (cons x s)) = eqb (code z) 48 && (eqb (code x) 120 || eqb (code x) 88)
  has_hex_prefix s = false

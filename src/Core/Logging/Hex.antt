-- ===== src/Core/Logging/Hex.antt =====
-- `format(n, "0<width>x")`: hexadecimal digits, small letters, with zeros in front.
use Prim.Native.Char.{char}
use Prim.Native.String.{[] as nil, ◌∷◌ as cons}
use mathlib.Core.Logic.{dite}
use native.Mathlib.Decide.{dec_lt}
use rtls_stream_visualizer.Base.{
  ℕ, zero, suc, ◌+◌, ◌-◌, ◌/◌, ◌%◌, String, Char, ◌&&◌, eqb, arith, if◌then◌else◌,
}
use rtls_stream_visualizer.Python.Text.{IsScalar_of_lt}

-- The digit of a number below 16.
unfoldable pub hex_char : ℕ → Char
hex_char d =
    dite (dec_lt d 10) (λ h. char (d + 48) (IsScalar_of_lt (d + 48) (omega arith)))
      (λ _.
        dite (dec_lt d 16) (λ h. char (d + 87) (IsScalar_of_lt (d + 87) (omega arith)))
          (λ _. char 48 (IsScalar_of_lt 48 (omega arith))))

-- Digits in front of a text, the last one first, until the number is used up and the width is
-- reached.
unfoldable pub pad_hex : ℕ → ℕ → ℕ → String → String
unfolding hex_char
pad_hex zero width n s = s
pad_hex (suc fuel) width n s =
    let rest = pad_hex fuel (width - 1) (n / 16) (cons (hex_char (n % 16)) s) in
    if eqb width 0 && eqb n 0 then s else rest

-- A number has fewer digits than it counts, so the fuel is enough.
unfoldable pub format_hex : ℕ → ℕ → String
unfolding pad_hex
format_hex width n = pad_hex (width + n) width n nil

-- ===== src/Python/Text.antt =====
-- `str` methods over code points: strip, split, `in` and lower, with the white space that Python
-- strips.
pub mod Split
use Prim.Native.Nat.{compare, Ordering}
use Prim.Native.Char.{char, IsScalar}
use Prim.Native.String.{[] as nil, ◌∷◌ as cons}
use mathlib.Core.Logic.{dite}
use native.Mathlib.Decide.{dec_lt}
use rtls_stream_visualizer.Base.{
  ℕ, suc, ◌+◌, ◌≡◌, ◌<◌, String, Char, code, Bool, false, ◌&&◌, ◌||◌, List, [], ◌∷◌, if◌then◌else◌,
  leb, eqb, arith,
}

-- `len(s)`
abbrev pub count : String → ℕ
count nil = 0
count (cons c s) = suc (count s)

-- The Unicode white space that `strip` removes.
unfoldable pub is_space : ℕ → Bool
is_space n =
    (leb 9 n && leb n 13)
    || (leb 28 n && leb n 32)
    || eqb n 133
    || eqb n 160
    || eqb n 5760
    || (leb 8192 n && leb n 8202)
    || eqb n 8232
    || eqb n 8233
    || eqb n 8239
    || eqb n 8287
    || eqb n 12288

unfoldable pub lstrip : String → String
unfolding is_space
lstrip nil = nil
lstrip (cons c s) = let rest = lstrip s in if is_space (code c) then rest else cons c s

-- One more character in front of a text whose trailing white space is gone.
abbrev pub cons_strip : Char → String → String
cons_strip c nil = if is_space (code c) then nil else cons c nil
cons_strip c (cons d s) = cons c (cons d s)

unfoldable pub rstrip : String → String
unfolding is_space
rstrip nil = nil
rstrip (cons c s) = cons_strip c (rstrip s)

-- s.strip()
unfoldable pub strip : String → String
unfolding lstrip rstrip
strip s = rstrip (lstrip s)

-- `c in s` for a character
unfoldable pub contains : ℕ → String → Bool
contains n nil = false
contains n (cons c s) = eqb (code c) n || contains n s

-- `s.startswith(c)` for a character
abbrev pub begins : ℕ → String → Bool
begins n nil = false
begins n (cons c s) = eqb (code c) n

-- `s.split(c, 1)` where `c in s`: the text before the first `c`, and the text behind it.
unfoldable pub before : ℕ → String → String
before n nil = nil
before n (cons c s) = let rest = before n s in if eqb (code c) n then nil else cons c rest

unfoldable pub after : ℕ → String → String
after n nil = nil
after n (cons c s) = let rest = after n s in if eqb (code c) n then s else rest

-- The first part of a split gets one more character.
abbrev pub cons_first : Char → List String → List String
cons_first c [] = cons c nil ∷ []
cons_first c (p ∷ ps) = cons c p ∷ ps

-- s.split(c)
unfoldable pub split : ℕ → String → List String
split n nil = nil ∷ []
split n (cons c s) =
    let parts = split n s in if eqb (code c) n then nil ∷ parts else cons_first c parts

pub IsScalar_of_lt : (n : ℕ) → n < 55296 → IsScalar n
IsScalar_of_lt n h = let e : compare n 55296 ≡ Ordering.lt = ground arith in rw e tt

-- `c.lower()` for an ASCII character
unfoldable pub lower_ascii : Char → Char
unfolding IsScalar_of_lt dec_lt
lower_ascii c =
    dite (dec_lt (code c) 91)
      (λ h.
        if leb 65 (code c)
        then char (code c + 32) (IsScalar_of_lt (code c + 32) (omega arith))
        else c)
      (λ _. c)

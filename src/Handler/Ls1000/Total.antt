-- ===== src/Handler/Ls1000/Total.antt =====
-- Text messages never raise.
use Prim.Native.String.{[] as nil, ◌∷◌ as cons}
use rtls_stream_visualizer.Base.{
  ℕ, zero, suc, ◌-◌, String, ◌≡◌, refl, Bool, true, false, some, List, [], ◌∷◌, arith, is_some, All,
  Option-cases, map, inl, inr,
}
use rtls_stream_visualizer.Base.Raise.{Exc, ok, raise}
use rtls_stream_visualizer.Python.Text.{count, strip, begins, before, after, split}
use rtls_stream_visualizer.Python.Runtime.{Runtime, lower}
use rtls_stream_visualizer.Python.Coord.{coord, find_from, find_all}
use rtls_stream_visualizer.Handler.Ls1000.Coords.{from_candidates, xyz_from_tokens}
use rtls_stream_visualizer.Handler.Ls1000.Messages.{parse_display}
use rtls_stream_visualizer.Handler.Ls1000.{parse_typed, parse_stripped, parse_message}

-- `float()` reads every text that `_COORD_RE` matches.
pub record AcceptsCoords (R : Runtime) : Type 0 where
  pub accepts : (s m : String) → coord R s ≡ some m → is_some (R.float_of_text m) ≡ true

abbrev pub returned {ℓ} : {A : Type ℓ} → Exc A → Bool
returned (ok a) = true
returned (raise e) = false

module _ (R : Runtime) (H : AcceptsCoords R) where
  IsNumber : String → Type 0
  IsNumber m = is_some (R.float_of_text m) ≡ true

  -- Every candidate is a match, so it is a number.
  find_from-All : (skip : ℕ) (s : String) → All IsNumber (find_from R skip s)
  unfolding find_from IsNumber
  find_from-All skip nil = tt
  find_from-All zero (cons c s) = elim (Option-cases (coord R (cons c s))) [
    | inl e ↦ rw (e, find_from) (find_from-All zero s)
    | inr (m, e) ↦ rw (e, find_from) (H.accepts (cons c s) m e, find_from-All (count m - 1) s)
  ]
  find_from-All (suc skip) (cons c s) = find_from-All skip s

  from_candidates-returned :
      (l : List String) → All IsNumber l → returned (from_candidates R l) ≡ true
  unfolding from_candidates IsNumber
  from_candidates-returned (a ∷ b ∷ c ∷ l) h = ground arith
  from_candidates-returned l h = refl

  xyz_from_tokens-returned : (l : List String) → returned (xyz_from_tokens R l) ≡ true
  unfolding xyz_from_tokens
  xyz_from_tokens-returned [] = refl
  xyz_from_tokens-returned (a ∷ b ∷ c ∷ l) =
      ground (arith, from_candidates-returned (find_all R a) (find_from-All 0 a))
  xyz_from_tokens-returned (a ∷ l) = from_candidates-returned (find_all R a) (find_from-All 0 a)

  parse_display-returned :
      (raw : String) (tokens : List String) → returned (parse_display R raw tokens) ≡ true
  unfolding parse_display
  parse_display-returned raw (len ∷ tag ∷ seq ∷ ts ∷ lay ∷ rest) =
      ground (arith, xyz_from_tokens-returned rest)
  parse_display-returned raw tokens = refl

  parse_typed-returned :
      (raw source : String) (tokens : List String)
      → returned (parse_typed R raw source tokens) ≡ true
  unfolding parse_typed
  parse_typed-returned raw source tokens = ground (arith, parse_display-returned raw tokens)

  parse_stripped-returned :
      (raw text : String) → begins 123 text ≡ false → returned (parse_stripped R raw text) ≡ true
  unfolding parse_stripped
  parse_stripped-returned raw nil h = refl
  parse_stripped-returned raw (cons c s) h = ground (
    arith,
    parse_typed-returned raw (lower R (strip (before 58 (cons c s))))
        (map strip (split 44 (after 58 (cons c s)))),
  )

  -- A message that does not begin with "{" never raises, provided that `float()` reads every text
  -- that the coordinate expression matches.
  pub parse_message-returned :
      (raw : String) → begins 123 (strip raw) ≡ false → returned (parse_message R raw) ≡ true
  unfolding parse_message
  parse_message-returned raw h = parse_stripped-returned raw (strip raw) h

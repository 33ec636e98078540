-- ===== src/Handler/Ls1000/Accepts.antt =====
-- Which messages `parse_base` of `LS1000Parser` accepts, and from which fields an event is read.
use rtls_stream_visualizer.Base.Raise.{Returns}
use rtls_stream_visualizer.Base.{
  ℕ, String, ◌≡◌, refl, true, ◌&&◌, ◌||◌, Option, none, some, List, [], ◌∷◌, arith, if◌then◌else◌,
  is_some, ◌==◌, eq_iff, ◌⊎◌, inl, inr, subst, sym, length, get_elem?, leb,
}
use rtls_stream_visualizer.Python.Runtime.{Runtime}
use rtls_stream_visualizer.Handler.Ls1000.Read.{parse_int_text, parse_float_text}
use rtls_stream_visualizer.Handler.Ls1000.Messages.{
  Parsed, parse_display, parse_status1, parse_status2, parse_gpsposi,
}
use rtls_stream_visualizer.Handler.Ls1000.{is_base, parse_base}

-- The protocol's table: how many fields a message has at least, and where its tag and its layer
-- stand. The timestamp is the fourth field of each.
pub record Layout : Type 0 where
  pub fields : ℕ
  pub tag : ℕ
  pub layer : ℕ

abbrev pub layout : String → Layout
layout source =
    if source == "display"
    then record { fields = 5; tag = 1; layer = 4 }
    else if source == "status1"
    then record { fields = 6; tag = 2; layer = 5 }
    else if source == "status2"
    then record { fields = 4; tag = 1; layer = 4 }
    else record { fields = 7; tag = 1; layer = 4 }

-- A field that may be missing, read as a number.
abbrev pub read_at {ℓ} : {A : Type ℓ} → (String → Option A) → List String → ℕ → Option A
read_at read tokens i = elim (get_elem? tokens i) [ none ↦ none | some token ↦ read token ]

module _ (R : Runtime) where
  -- The code of the error, or none.
  abbrev pub verdict : String → List String → Option String
  verdict source tokens =
      if leb (layout source).fields (length tokens)
      then (if is_some (read_at (parse_int_text R) tokens 3)
          then (if source == "display"
                || source == "status1"
                || source == "status2"
                || (is_some (read_at (parse_float_text R) tokens 5)
                    && is_some (read_at (parse_float_text R) tokens 6))
              then none
              else some "invalid_coordinates")
          else some "invalid_timestamp")
      else some "invalid_payload"

  -- An answer that agrees with the table: the error has the code of the verdict, or the event has
  -- the tag, the timestamp and the layer of the fields where the table puts them.
  abbrev pub Agrees : String → List String → Parsed R.Float → Type 0
  Agrees source tokens (none, some er) = verdict source tokens ≡ some er.code
  Agrees source tokens (some e, none) =
      (verdict source tokens ≡ none)
      × (get_elem? tokens (layout source).tag ≡ some e.tag_id)
      × (read_at (parse_int_text R) tokens 3 ≡ some e.ts_utc_ms)
      × (read_at (parse_int_text R) tokens (layout source).layer ≡ e.layer)
      × (e.source_type ≡ source)
  Agrees source tokens p = ⊥

pub is_base-cases :
    (source : String)
    → is_base source ≡ true
    → (source ≡ "display") ⊎ (source ≡ "status1") ⊎ (source ≡ "status2") ⊎ (source ≡ "gpsposi")
is_base-cases source h = ground (
  arith,
  eq_iff source "display",
  eq_iff source "status1",
  eq_iff source "status2",
  eq_iff source "gpsposi",
)

module _ (R : Runtime) (raw : String) where
  parse_display-Agrees :
      (tokens : List String) → Returns (Agrees R "display" tokens) (parse_display R raw tokens)
  unfolding parse_display
  parse_display-Agrees [] = refl
  parse_display-Agrees (a ∷ []) = refl
  parse_display-Agrees (a ∷ b ∷ []) = refl
  parse_display-Agrees (a ∷ b ∷ c ∷ []) = refl
  parse_display-Agrees (a ∷ b ∷ c ∷ d ∷ []) = refl
  parse_display-Agrees (len ∷ tag ∷ seq ∷ ts ∷ lay ∷ rest) = ground arith

  parse_status1-Agrees :
      (tokens : List String) → Agrees R "status1" tokens (parse_status1 R raw tokens)
  unfolding parse_status1
  parse_status1-Agrees (len ∷ kind ∷ tag ∷ ts ∷ vbat ∷ lay ∷ rest) = ground arith
  parse_status1-Agrees tokens = refl

  parse_status2-Agrees :
      (tokens : List String) → Agrees R "status2" tokens (parse_status2 R raw tokens)
  unfolding parse_status2
  parse_status2-Agrees (len ∷ tag ∷ seq ∷ ts ∷ []) = ground arith
  parse_status2-Agrees (len ∷ tag ∷ seq ∷ ts ∷ lay ∷ rest) = ground arith
  parse_status2-Agrees tokens = refl

  parse_gpsposi-Agrees :
      (tokens : List String) → Agrees R "gpsposi" tokens (parse_gpsposi R raw tokens)
  unfolding parse_gpsposi
  parse_gpsposi-Agrees (len ∷ tag ∷ seq ∷ ts ∷ lay ∷ lng ∷ lat ∷ rest) = ground arith
  parse_gpsposi-Agrees tokens = refl

  -- `parse_base`, which has the tokens of a message of a base type, accepts or refuses as the
  -- protocol's table says: it refuses with "invalid_payload" when there are too few tokens, else
  -- with "invalid_timestamp" when the fourth is no int, else, for gpsposi alone, with
  -- "invalid_coordinates" when lng or lat is no float. The event that it accepts has the tag, the
  -- timestamp and the layer of the tokens where the table of its type puts them.
  pub parse_base-Agrees :
      (source : String) (tokens : List String)
      → is_base source ≡ true
      → Returns (Agrees R source tokens) (parse_base R raw source tokens)
  unfolding parse_base
  parse_base-Agrees source tokens h =
      let Goal : String → Type 0 = λ s. Returns (Agrees R s tokens) (parse_base R raw s tokens) in
      elim (is_base-cases source h) [
        | inl e ↦ subst Goal (sym e) (parse_display-Agrees tokens)
        | inr (inl e) ↦ subst Goal (sym e) (parse_status1-Agrees tokens)
        | inr (inr (inl e)) ↦ subst Goal (sym e) (parse_status2-Agrees tokens)
        | inr (inr (inr e)) ↦ subst Goal (sym e) (parse_gpsposi-Agrees tokens)
      ]

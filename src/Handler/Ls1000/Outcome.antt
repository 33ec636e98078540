-- ===== src/Handler/Ls1000/Outcome.antt =====
-- What `parse_message` returns: one of the two results, with the fields that its message type fills.
use Prim.Native.String.{[] as nil, ◌∷◌ as cons}
use rtls_stream_visualizer.Base.{
  String, ◌≡◌, refl, true, false, ◌&&◌, ◌||◌, none, some, List, [], ◌∷◌, arith, if◌then◌else◌,
  is_some, ◌==◌, map,
}
use rtls_stream_visualizer.Base.Raise.{Returns}
use rtls_stream_visualizer.Python.Text.{strip, before, after, split}
use rtls_stream_visualizer.Python.Value.{obj, Fields}
use rtls_stream_visualizer.Python.Runtime.{Runtime, Loaded, loaded, malformed, failed, lower}
use rtls_stream_visualizer.Python.Coord.{find_all}
use rtls_stream_visualizer.Handler.Event.{NormalizedEvent}
use rtls_stream_visualizer.Handler.Ls1000.Coords.{Xyz, from_candidates, xyz_from_tokens}
use rtls_stream_visualizer.Handler.Ls1000.Messages.{
  Parsed, parse_display, parse_status1, parse_status2, parse_gpsposi,
}
use rtls_stream_visualizer.Handler.Ls1000.Json.{parse_object, parse_loaded, parse_json}
use rtls_stream_visualizer.Handler.Ls1000.{is_base, parse_typed, parse_stripped, parse_message}

module _ {F : Type 0} where
  -- The three coordinates are there together or not at all.
  abbrev pub Together : Xyz F → Type 0
  Together (x, y, z) = (is_some y ≡ is_some x) × (is_some z ≡ is_some x)

  abbrev pub IsDisplay : NormalizedEvent F → Type 0
  IsDisplay e =
      Together (e.x, e.y, e.z)
      × ((is_some e.x && is_some e.area) ≡ false)
      × (e.status ≡ none)
      × (e.lng ≡ none)
      × (e.lat ≡ none)

  abbrev pub NoXyz : NormalizedEvent F → Type 0
  NoXyz e = (e.x ≡ none) × (e.y ≡ none) × (e.z ≡ none)

  abbrev pub IsStatus1 : NormalizedEvent F → Type 0
  IsStatus1 e = NoXyz e × (e.area ≡ none) × (e.lng ≡ none) × (e.lat ≡ none)

  abbrev pub IsGps : NormalizedEvent F → Type 0
  IsGps e =
      (e.x ≡ none)
      × (e.y ≡ none)
      × (e.area ≡ none)
      × (e.status ≡ none)
      × (is_some e.lng ≡ true)
      × (is_some e.lat ≡ true)

  -- The fields that an event of each message type fills and leaves None.
  abbrev pub Shape : String → NormalizedEvent F → Type 0
  Shape source e =
      if source == "display"
      then IsDisplay e
      else if source == "status1"
      then IsStatus1 e
      else if source == "status2"
      then (IsStatus1 e × (e.status ≡ none))
      else if source == "gpsposi"
      then IsGps e
      else Unit

  abbrev pub IsEvent : String → NormalizedEvent F → Type 0
  IsEvent raw e =
      (e.origin ≡ "ls-1000")
      × (e.raw_message ≡ raw)
      × (e.parse_warnings ≡ [])
      × ((is_base e.source_type || e.source_type == "json") ≡ true)
      × Shape e.source_type e

  -- An event or an error, never both and never neither, each with the message as it came.
  abbrev pub Outcome : String → Parsed F → Type 0
  Outcome raw (some e, none) = IsEvent raw e
  Outcome raw (none, some er) = er.raw_message ≡ raw
  Outcome raw (none, none) = ⊥
  Outcome raw (some e, some er) = ⊥

module _ (R : Runtime) where
  from_candidates-Together : (l : List String) → Returns Together (from_candidates R l)
  unfolding from_candidates
  from_candidates-Together (a ∷ b ∷ c ∷ l) = ground arith
  from_candidates-Together l = (refl, refl)

  pub xyz_from_tokens-Together : (l : List String) → Returns Together (xyz_from_tokens R l)
  unfolding xyz_from_tokens
  xyz_from_tokens-Together [] = (refl, refl)
  xyz_from_tokens-Together (a ∷ b ∷ c ∷ l) = ground (arith, from_candidates-Together (find_all R a))
  xyz_from_tokens-Together (a ∷ l) = from_candidates-Together (find_all R a)

module _ (R : Runtime) (raw : String) where
  parse_display-Outcome :
      (tokens : List String) → Returns (Outcome raw) (parse_display R raw tokens)
  unfolding parse_display
  parse_display-Outcome (len ∷ tag ∷ seq ∷ ts ∷ lay ∷ rest) =
      ground (arith, xyz_from_tokens-Together R rest)
  parse_display-Outcome tokens = refl

  parse_status1-Outcome : (tokens : List String) → Outcome raw (parse_status1 R raw tokens)
  unfolding parse_status1
  parse_status1-Outcome (len ∷ kind ∷ tag ∷ ts ∷ vbat ∷ lay ∷ rest) = ground arith
  parse_status1-Outcome tokens = refl

  parse_status2-Outcome : (tokens : List String) → Outcome raw (parse_status2 R raw tokens)
  unfolding parse_status2
  parse_status2-Outcome (len ∷ tag ∷ seq ∷ ts ∷ rest) = ground arith
  parse_status2-Outcome tokens = refl

  parse_gpsposi-Outcome : (tokens : List String) → Outcome raw (parse_gpsposi R raw tokens)
  unfolding parse_gpsposi
  parse_gpsposi-Outcome (len ∷ tag ∷ seq ∷ ts ∷ lay ∷ lng ∷ lat ∷ rest) = ground arith
  parse_gpsposi-Outcome tokens = refl

  parse_typed-Outcome :
      (source : String) (tokens : List String)
      → Returns (Outcome raw) (parse_typed R raw source tokens)
  unfolding parse_typed
  parse_typed-Outcome source tokens = ground (
    arith,
    parse_display-Outcome tokens,
    parse_status1-Outcome tokens,
    parse_status2-Outcome tokens,
    parse_gpsposi-Outcome tokens,
  )

  parse_object-Outcome : (fs : Fields R.Float) → Returns (Outcome raw) (parse_object R raw fs)
  unfolding parse_object
  parse_object-Outcome fs = ground arith

  parse_loaded-Outcome : (l : Loaded R.Float) → Returns (Outcome raw) (parse_loaded R raw l)
  unfolding parse_loaded
  parse_loaded-Outcome (malformed reason) = refl
  parse_loaded-Outcome (failed e) = tt
  parse_loaded-Outcome (loaded (obj fs)) = parse_object-Outcome fs
  parse_loaded-Outcome (loaded v) = tt

  parse_stripped-Outcome : (text : String) → Returns (Outcome raw) (parse_stripped R raw text)
  unfolding parse_stripped parse_json
  parse_stripped-Outcome nil = refl
  parse_stripped-Outcome (cons c s) = ground (
    arith,
    parse_loaded-Outcome (R.loads (cons c s)),
    parse_typed-Outcome (lower R (strip (before 58 (cons c s))))
        (map strip (split 44 (after 58 (cons c s)))),
  )

  -- Whatever `parse_message` returns is one event or one error, never both and never neither. Each
  -- keeps the message as it came. An event has the origin "ls-1000", no warnings and a known
  -- source type, which says what fields it has: a display message has x, y and z together or not
  -- at all, no area beside an x, and no status, lng or lat; status1 and status2 have no
  -- coordinates and no area, status2 no status either; gpsposi has lng and lat, and no x, y,
  -- area or status.
  pub parse_message-Outcome : Returns (Outcome raw) (parse_message R raw)
  unfolding parse_message
  parse_message-Outcome = parse_stripped-Outcome (strip raw)

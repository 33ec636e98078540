-- ===== src/Handler/Normalizer/Events.antt =====
-- What an event of the normalizer holds.
use Prim.Native.String.{[] as nil, ◌∷◌ as cons}
use text.Mathlib.TextLemmas.{cons≢nil}
use rtls_stream_visualizer.Base.{
  sym, String, ◌≡◌, ◌≢◌, refl, ◌⊎◌, inl, inr, Option, none, some, List, [], ◌∷◌, Option-cases,
  subst, All,
}
use rtls_stream_visualizer.Base.Int.{ℤ}
use rtls_stream_visualizer.Base.Raise.{Exc, ok, raise, ◌>>=◌, Returns, Returns-bind, Returns-mono}
use rtls_stream_visualizer.Python.Text.{strip}
use rtls_stream_visualizer.Python.Value.{Integer, int, Value, null, obj, Fields, lookup}
use rtls_stream_visualizer.Python.Runtime.{Runtime, text_of}
use rtls_stream_visualizer.Handler.Event.{NormalizedEvent}
use rtls_stream_visualizer.Handler.Ls1000.Coords.{or_null}
use rtls_stream_visualizer.Handler.Ls1000.Read.{non_empty, text_at, first_str}
use rtls_stream_visualizer.Handler.Normalizer.{
  parse_int, first_of_values, first_int, extract_xyz, first_float, stamp, event_of, normalize,
}

module _ {A : Type 0} (Absent Holds : A → Type 0) where
  -- One of these holds, and those before it are absent.
  abbrev pub FirstOf : List A → Type 0
  FirstOf [] = ⊥
  FirstOf (x ∷ xs) = Holds x ⊎ (Absent x × FirstOf xs)

module _ (R : Runtime) where
  abbrev pub tag_keys : List String
  tag_keys = "tag_id" ∷ "devid" ∷ "dev_id" ∷ "tag" ∷ "id" ∷ []

  abbrev pub ts_keys : List String
  ts_keys = "ts_utc_ms" ∷ "timestamp" ∷ "ts" ∷ []

  -- The key has no text that is not blank: it is absent, or null, or its text is blank.
  abbrev pub HasNoText : Fields R.Float → String → Type 0
  HasNoText fs key =
      (lookup fs key ≡ none)
      ⊎ ((v : Value R.Float) × (lookup fs key ≡ some v)
          × ((v ≡ null) ⊎ (strip (text_of R v) ≡ nil)))

  -- The key has this text, which is not blank.
  abbrev pub HasText : Fields R.Float → String → String → Type 0
  HasText fs text key =
      (text ≢ nil) × ((v : Value R.Float) × (lookup fs key ≡ some v) × (strip (text_of R v) ≡ text))

  -- The value of the key is read as no integer, or as this one.
  abbrev pub HasNoInt : Fields R.Float → String → Type 0
  HasNoInt fs key = parse_int R (or_null (lookup fs key)) ≡ ok none

  abbrev pub HasInt : Fields R.Float → Integer → String → Type 0
  HasInt fs n key = parse_int R (or_null (lookup fs key)) ≡ ok (some n)

  abbrev FoundText : Fields R.Float → List String → Option String → Type 0
  FoundText fs keys none = All (HasNoText fs) keys
  FoundText fs keys (some text) = FirstOf (HasNoText fs) (HasText fs text) keys

  abbrev FoundInt : Fields R.Float → List String → Option Integer → Type 0
  FoundInt fs keys none = All (HasNoInt fs) keys
  FoundInt fs keys (some n) = FirstOf (HasNoInt fs) (HasInt fs n) keys

  -- An event of the normalizer: it has the normalizer's origin, the source type "json" and the message
  -- as it came, and its timestamp is the message's, or the clock's with a warning.
  abbrev pub IsNormalized : String → ℤ → Fields R.Float → String → NormalizedEvent R.Float → Type 0
  IsNormalized origin now fs raw e =
      (e.origin ≡ origin)
      × (e.source_type ≡ "json")
      × (e.raw_message ≡ raw)
      × ((FirstOf (HasNoInt fs) (HasInt fs e.ts_utc_ms) ts_keys × (e.parse_warnings ≡ []))
          ⊎ (All (HasNoInt fs) ts_keys
              × (e.ts_utc_ms ≡ int now)
              × (e.parse_warnings ≡ "timestamp_missing_used_ingestion_time" ∷ [])))

  -- What one key holds.
  abbrev TextAt : Fields R.Float → String → Option String → Type 0
  TextAt fs key none = HasNoText fs key
  TextAt fs key (some text) = HasText fs text key

  non_empty-TextAt :
      (fs : Fields R.Float) (key text : String) (v : Value R.Float)
      → lookup fs key ≡ some v
      → strip (text_of R v) ≡ text
      → TextAt fs key (non_empty text)
  non_empty-TextAt fs key nil v found same = inr (v, found, inr same)
  non_empty-TextAt fs key (cons c s) v found same = (cons≢nil, (v, found, same))

  text_at-TextAt :
      (fs : Fields R.Float) (key : String) (found : Option (Value R.Float))
      → lookup fs key ≡ found
      → TextAt fs key (text_at R found)
  unfolding text_at
  text_at-TextAt fs key none e = inl e
  text_at-TextAt fs key (some null) e = inr (null, e, inl refl)
  text_at-TextAt fs key (some v) e = non_empty-TextAt fs key (strip (text_of R v)) v e refl

  FoundText-cons :
      (fs : Fields R.Float) (key : String) (keys : List String) (here rest : Option String)
      → TextAt fs key here
      → FoundText fs keys rest
      → FoundText fs (key ∷ keys) (elim here [ none ↦ rest | some s ↦ some s ])
  FoundText-cons fs key keys none none h k = (h, k)
  FoundText-cons fs key keys none (some s) h k = inr (h, k)
  FoundText-cons fs key keys (some s) rest h k = inl h

  first_str-FoundText :
      (fs : Fields R.Float) (keys : List String) → FoundText fs keys (first_str R fs keys)
  unfolding first_str
  first_str-FoundText fs [] = tt
  first_str-FoundText fs (key ∷ keys) =
      FoundText-cons fs key keys (text_at R (lookup fs key)) (first_str R fs keys)
        (text_at-TextAt fs key (lookup fs key) refl) (first_str-FoundText fs keys)

  FoundInt-cons :
      (fs : Fields R.Float) (key : String) (keys : List String) (here : Option Integer)
      (rest : Exc (Option Integer))
      → parse_int R (or_null (lookup fs key)) ≡ ok here
      → Returns (FoundInt fs keys) rest
      → Returns (FoundInt fs (key ∷ keys)) (elim here [ none ↦ rest | some n ↦ ok (some n) ])
  FoundInt-cons fs key keys none (ok none) e k = (e, k)
  FoundInt-cons fs key keys none (ok (some n)) e k = inr (e, k)
  FoundInt-cons fs key keys none (raise x) e k = tt
  FoundInt-cons fs key keys (some n) rest e k = inl e

  first_int-FoundInt :
      (fs : Fields R.Float) (keys : List String) → Returns (FoundInt fs keys) (first_int R fs keys)
  unfolding first_int first_of_values
  first_int-FoundInt fs [] = tt
  first_int-FoundInt fs (key ∷ keys) =
      Returns-bind (FoundInt fs (key ∷ keys)) (parse_int R (or_null (lookup fs key))) _ λ here e.
        FoundInt-cons fs key keys here (first_int R fs keys) e (first_int-FoundInt fs keys)

  stamp_lem :
      (now : ℤ) (fs : Fields R.Float) (found : Option Integer)
      → FoundInt fs ts_keys found
      → (FirstOf (HasNoInt fs) (HasInt fs (stamp R now found).0) ts_keys
          × ((stamp R now found).1 ≡ []))
        ⊎ (All (HasNoInt fs) ts_keys
            × ((stamp R now found).0 ≡ int now)
            × ((stamp R now found).1 ≡ "timestamp_missing_used_ingestion_time" ∷ []))
  stamp_lem now fs none h = inr (h, refl, refl)
  stamp_lem now fs (some ts) h = inl (h, refl)

  event_of-IsNormalized :
      (origin : String) (now : ℤ) (fs : Fields R.Float) (raw tag : String)
      → Returns
          (λ e. IsNormalized origin now fs raw e × (e.tag_id ≡ tag))
          (event_of R origin now fs raw tag)
  unfolding event_of
  event_of-IsNormalized origin now fs raw tag =
      let P : NormalizedEvent R.Float → Type 0 =
        λ e. IsNormalized origin now fs raw e × (e.tag_id ≡ tag) in
      Returns-bind P (first_int R fs ts_keys) _ λ found h.
        Returns-bind P (extract_xyz R fs) _ λ xyz _.
          Returns-bind P (first_float R fs ("lng" ∷ "lon" ∷ "longitude" ∷ [])) _ λ lng _.
            Returns-bind P (first_float R fs ("lat" ∷ "latitude" ∷ [])) _ λ lat _.
              Returns-bind P (first_int R fs ("layer" ∷ "layid" ∷ "floor" ∷ [])) _ λ layer _.
                let read =
                  subst (Returns (FoundInt fs ts_keys)) h (first_int-FoundInt fs ts_keys) in
                ((refl, refl, refl, stamp_lem now fs found read), refl)

  -- The answer for an object: nothing where no key holds a tag, else an event with the first tag.
  abbrev pub Answer :
      String → ℤ → Fields R.Float → String → Option (NormalizedEvent R.Float) → Type 0
  Answer origin now fs raw none = All (HasNoText fs) tag_keys
  Answer origin now fs raw (some e) =
      IsNormalized origin now fs raw e × FirstOf (HasNoText fs) (HasText fs e.tag_id) tag_keys

  some_event-Answer :
      (origin : String) (now : ℤ) (fs : Fields R.Float) (raw tag : String)
      → FirstOf (HasNoText fs) (HasText fs tag) tag_keys
      → Returns (Answer origin now fs raw) (event_of R origin now fs raw tag >>= λ e. ok (some e))
  some_event-Answer origin now fs raw tag found =
      Returns-bind (Answer origin now fs raw) (event_of R origin now fs raw tag) _ λ e made.
        let (h, same) =
          subst (Returns (λ e. IsNormalized origin now fs raw e × (e.tag_id ≡ tag))) made
            (event_of-IsNormalized origin now fs raw tag) in
        (h, subst (λ t. FirstOf (HasNoText fs) (HasText fs t) tag_keys) (sym same) found)

  -- The normalizer maps an object to nothing only when every tag key is absent or null or has a blank
  -- text. Its event has the text of the first tag key that is none of these, stripped, the normalizer's
  -- origin, the source type "json" and the message as it came. Its timestamp is that of the first
  -- timestamp key whose value is read as an integer, without a warning, or else, where there is none,
  -- the time of ingestion, with the warning.
  pub normalize-Answer :
      (origin : String) (now : ℤ) (fs : Fields R.Float) (raw : String)
      → Returns (Answer origin now fs raw) (normalize R origin now (obj fs) raw)
  unfolding normalize
  normalize-Answer origin now fs raw =
      let found : FoundText fs tag_keys (first_str R fs tag_keys) =
        first_str-FoundText fs tag_keys in
      elim (Option-cases (first_str R fs tag_keys)) [
        | inl e ↦ rw (e, normalize) (subst (FoundText fs tag_keys) e found)
        | inr (tag, e) ↦
            rw (e, normalize)
              (some_event-Answer origin now fs raw tag (subst (FoundText fs tag_keys) e found))
      ]

  abbrev pub IsJson : Option (NormalizedEvent R.Float) → Type 0
  IsJson none = Unit
  IsJson (some e) = e.source_type ≡ "json"

  Answer-IsJson :
      (origin : String) (now : ℤ) (fs : Fields R.Float) (raw : String)
      (o : Option (NormalizedEvent R.Float))
      → Answer origin now fs raw o
      → IsJson o
  Answer-IsJson origin now fs raw none h = tt
  Answer-IsJson origin now fs raw (some e) ((_, json, _, _), _) = json

  -- Every event of the normalizer has the source type "json".
  pub normalize-IsJson :
      (origin : String) (now : ℤ) (v : Value R.Float) (raw : String)
      → Returns IsJson (normalize R origin now v raw)
  unfolding normalize
  normalize-IsJson origin now (obj fs) raw =
      Returns-mono (Answer origin now fs raw) IsJson (normalize R origin now (obj fs) raw)
        (Answer-IsJson origin now fs raw) (normalize-Answer origin now fs raw)
  normalize-IsJson origin now v raw = tt

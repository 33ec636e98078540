-- ===== src/Backend/Socket/Fresh.antt =====
-- What a client is sent after its snapshot.
use rtls_stream_visualizer.Base.{
  String, ◌≡◌, ◌≢◌, refl, ◌∙◌, subst, Bool, true, not, Option, none, some, List, [], ◌∷◌,
  if◌then◌else◌, All, ◌==◌, eq_iff, arith, keep, map, inl, inr, Bool-cases,
}
use rtls_stream_visualizer.Base.Int.{ℤ, ltbℤ}
use rtls_stream_visualizer.Base.Dict
use rtls_stream_visualizer.Base.Dict.{Dict, get-set}
use rtls_stream_visualizer.Base.Raise.{ok}
use rtls_stream_visualizer.Python.Value.{Integer, number_of, integer, str, obj, Fields, lookup}
use rtls_stream_visualizer.Python.Runtime.{Runtime}
use rtls_stream_visualizer.Backend.Params.{fields_of}
use rtls_stream_visualizer.Backend.Database.{Row}
use rtls_stream_visualizer.Backend.Socket.{
  timestamps_from, snapshot_timestamps, or_zero, is_stale, compare_ts, stream, waiting,
}

abbrev pub or_else : Option ℤ → Option ℤ → Option ℤ
or_else none other = other
or_else (some n) other = some n

or_else-none : (o : Option ℤ) → or_else o none ≡ o
or_else-none none = refl
or_else-none (some n) = refl

module _ {F : Type 0} where
  -- The tags of the rows are distinct, `tag_id` being the primary key.
  abbrev pub DistinctTags : List (Row F) → Type 0
  DistinctTags [] = Unit
  DistinctTags (row ∷ rows) = All (λ r. r.tag_id ≢ row.tag_id) rows × DistinctTags rows

  get-timestamps_from_absent :
      (d : Dict ℤ) (rows : List (Row F)) (tag : String)
      → All (λ r. r.tag_id ≢ tag) rows
      → Dict.get (timestamps_from d rows) tag ≡ Dict.get d tag
  unfolding timestamps_from
  get-timestamps_from_absent d [] tag h = refl
  get-timestamps_from_absent d (row ∷ rows) tag (ne, h) =
      get-timestamps_from_absent (Dict.set d row.tag_id row.ts_utc_ms) rows tag h
      ∙ rw get-set (ground (arith, eq_iff row.tag_id tag))

  -- The timestamp of the row of a tag.
  unfoldable pub ts_of : List (Row F) → String → Option ℤ
  ts_of [] tag = none
  ts_of (row ∷ rows) tag = if row.tag_id == tag then some row.ts_utc_ms else ts_of rows tag

  get-timestamps_from :
      (d : Dict ℤ) (rows : List (Row F)) (tag : String)
      → DistinctTags rows
      → Dict.get (timestamps_from d rows) tag ≡ or_else (ts_of rows tag) (Dict.get d tag)
  unfolding timestamps_from ts_of
  get-timestamps_from d [] tag h = refl
  get-timestamps_from d (row ∷ rows) tag (apart, h) =
      let d' : Dict ℤ = Dict.set d row.tag_id row.ts_utc_ms in
      elim (Bool-cases (row.tag_id == tag)) [
        | inl same ↦ simp same (
            get-timestamps_from_absent d' rows tag
              (subst (λ k. All (λ r. r.tag_id ≢ k) rows) ((eq_iff row.tag_id tag).0 same) apart)
            ∙ rw get-set (simp same))
        | inr other ↦ simp other (get-timestamps_from d' rows tag h ∙ rw get-set (simp other))
      ]

  get-snapshot_timestamps :
      (rows : List (Row F)) (tag : String)
      → DistinctTags rows
      → Dict.get (snapshot_timestamps rows) tag ≡ ts_of rows tag
  unfolding snapshot_timestamps Dict.get
  get-snapshot_timestamps rows tag h =
      get-timestamps_from [] rows tag h ∙ or_else-none (ts_of rows tag)

-- An envelope of a position, as the producer sends it: with a tag and an integer timestamp.
pub record Position (F : Type 0) : Type 0 where
  pub envelope : Fields F
  pub payload : Fields F
  pub tag : String
  pub ts : Integer
  pub has_payload : lookup envelope "payload" ≡ some (obj payload)
  pub has_tag : lookup payload "tag_id" ≡ some (str tag)
  pub has_ts : lookup payload "ts_utc_ms" ≡ some (integer ts)

-- The position is before what the client was shown of its tag, or before the epoch where it was
-- shown nothing.
abbrev pub is_behind : {F : Type 0} → List (Row F) → Position F → Bool
is_behind rows p = ltbℤ (number_of p.ts) (or_zero (ts_of rows p.tag))

module _ (R : Runtime) (rows : List (Row R.Float)) (distinct : DistinctTags rows) where
  is_stale-is_behind :
      (p : Position R.Float)
      → is_stale R p.envelope (snapshot_timestamps rows) ≡ ok (is_behind rows p)
  unfolding is_stale compare_ts fields_of
  is_stale-is_behind p =
      ground
        (arith, p.has_payload, p.has_tag, p.has_ts, get-snapshot_timestamps rows p.tag distinct)

  -- While the client is connected it is sent, in order, exactly the positions that are not before
  -- the row that its snapshot has of their tag, nor before the epoch where it has none.
  pub stream-is_behind :
      (ps : List (Position R.Float))
      → stream R (snapshot_timestamps rows) (map (λ p. (p.envelope, true)) ps) ≡ record {
        sent = map (λ p. p.envelope) (keep (λ p. not (is_behind rows p)) ps);
        last = waiting;
      }
  unfolding stream
  stream-is_behind [] = refl
  stream-is_behind (p ∷ ps) = ground (arith, is_stale-is_behind p, stream-is_behind ps)

-- ===== src/Backend/Current/Keyed.antt =====
-- `current_positions` is keyed by the tags of its rows, as its primary key demands.
use rtls_stream_visualizer.Base.{
  String, ◌≡◌, refl, ◌∙◌, inl, inr, Bool-cases, Option, none, some, List, [], ◌∷◌, All, ◌==◌,
  eq_iff,
}
use rtls_stream_visualizer.Base.Int.{lebℤ}
use rtls_stream_visualizer.Base.Dict
use rtls_stream_visualizer.Base.Dict.{Dict, NodupKeys, set-NodupKeys}
use rtls_stream_visualizer.Backend.Database.{Row, Tables, insert_event, newer_row, upsert_current}
use rtls_stream_visualizer.Backend.Database.Latest.{record_row}
use rtls_stream_visualizer.Backend.Consumer.Accepted.{record_all}

module _ {F : Type 0} where
  abbrev pub OwnTags : Dict (Row F) → Type 0
  OwnTags = All (λ entry. entry.1.tag_id ≡ entry.0)

  -- No key stands twice, and each row stands under its tag.
  abbrev pub IsKeyed : Tables F → Type 0
  IsKeyed t = NodupKeys t.current_positions × OwnTags t.current_positions

  set-OwnTags :
      (d : Dict (Row F)) (tag : String) (row : Row F)
      → row.tag_id ≡ tag
      → OwnTags d
      → OwnTags (Dict.set d tag row)
  unfolding Dict.set
  set-OwnTags [] tag row e h = (e, tt)
  set-OwnTags ((k, old) ∷ d) tag row e (p, h) = elim (Bool-cases (k == tag)) [
    | inl same ↦ simp same (e, h)
    | inr other ↦ simp other (p, set-OwnTags d tag row e h)
  ]

  -- A row that is found under a tag has that tag.
  abbrev TagOf : String → Option (Row F) → Type 0
  TagOf tag none = Unit
  TagOf tag (some row) = row.tag_id ≡ tag

  get-TagOf : (d : Dict (Row F)) (tag : String) → OwnTags d → TagOf tag (Dict.get d tag)
  unfolding Dict.get
  get-TagOf [] tag h = tt
  get-TagOf ((k, row) ∷ d) tag (p, h) = elim (Bool-cases (k == tag)) [
    | inl same ↦ simp same (p ∙ (eq_iff k tag).0 same)
    | inr other ↦ simp other (get-TagOf d tag h)
  ]

  newer_row-tag_id :
      (row : Row F) (old : Option (Row F))
      → TagOf row.tag_id old
      → (newer_row row old).tag_id ≡ row.tag_id
  unfolding newer_row
  newer_row-tag_id row none h = refl
  newer_row-tag_id row (some old) h = elim (Bool-cases (lebℤ old.ts_utc_ms row.ts_utc_ms)) [
    | inl newer ↦ simp newer refl
    | inr older ↦ simp older h
  ]

  record_row-IsKeyed : (row : Row F) (t : Tables F) → IsKeyed t → IsKeyed (record_row row t)
  unfolding insert_event upsert_current
  record_row-IsKeyed row t (keys, tags) =
      let old = Dict.get t.current_positions row.tag_id in
      (
        set-NodupKeys t.current_positions row.tag_id (newer_row row old) keys,
        set-OwnTags t.current_positions row.tag_id (newer_row row old)
            (newer_row-tag_id row old (get-TagOf t.current_positions row.tag_id tags)) tags,
      )

  pub record_all-IsKeyed :
      (t : Tables F) (rows : List (Row F)) → IsKeyed t → IsKeyed (record_all t rows)
  unfolding record_all
  record_all-IsKeyed t [] h = h
  record_all-IsKeyed t (row ∷ rows) h =
      record_all-IsKeyed (record_row row t) rows (record_row-IsKeyed row t h)

-- ===== src/Backend/Database/Latest.antt =====
-- `current_positions` against `position_events`: the current row of a tag is the last one of its
-- greatest timestamp.
use rtls_stream_visualizer.Base.{
  String, ◌≡◌, refl, sym, ap, subst, ◌∙◌, inl, inr, Bool-cases, Option, none, some, List, [], ◌∷◌,
  ◌++◌, arith, if◌then◌else◌, ◌==◌, eq_iff, All, All-append, keep,
}
use rtls_stream_visualizer.Base.Int.{ℤ, ◌≤ℤ◌, ◌<ℤ◌, lebℤ, lebℤ→le, lebℤ→lt}
use rtls_stream_visualizer.Base.Dict
use rtls_stream_visualizer.Base.Dict.{get-set}
use rtls_stream_visualizer.Backend.Database.{Row, Tables, insert_event, newer_row, upsert_current}
use mathlib.Core.List.{append_assoc}

module _ {F : Type 0} where
  abbrev pub rows_of : String → List (Row F) → List (Row F)
  rows_of tag = keep (λ row. row.tag_id == tag)

  -- `row` stands in the list, no earlier one is after it in time, and each later one is before it.
  abbrev pub IsLatest : List (Row F) → Row F → Type 0
  IsLatest rows row =
      (earlier : List (Row F)) × (later : List (Row F)) × (rows ≡ earlier ++ row ∷ later)
      × All (λ r. r.ts_utc_ms ≤ℤ row.ts_utc_ms) earlier
      × All (λ r. r.ts_utc_ms <ℤ row.ts_utc_ms) later

  abbrev pub Current : List (Row F) → Option (Row F) → Type 0
  Current rows none = rows ≡ []
  Current rows (some row) = IsLatest rows row

  -- Both tables tell the same story of every tag.
  abbrev pub IsConsistent : Tables F → Type 0
  IsConsistent t =
      (tag : String) → Current (rows_of tag t.position_events) (Dict.get t.current_positions tag)

  pub All-le_trans :
      (a b : ℤ) (l : List (Row F))
      → a ≤ℤ b
      → All (λ r. r.ts_utc_ms ≤ℤ a) l
      → All (λ r. r.ts_utc_ms ≤ℤ b) l
  All-le_trans a b [] h _ = tt
  All-le_trans a b (r ∷ l) h (p, q) = (omega arith, All-le_trans a b l h q)

  All-le_of_lt :
      (a : ℤ) (l : List (Row F)) → All (λ r. r.ts_utc_ms <ℤ a) l → All (λ r. r.ts_utc_ms ≤ℤ a) l
  All-le_of_lt a [] _ = tt
  All-le_of_lt a (r ∷ l) (p, q) = (omega arith, All-le_of_lt a l q)

  -- Rows up to an old one are not after a row that is not before the old one.
  All-le :
      (row old : Row F) (earlier later : List (Row F))
      → old.ts_utc_ms ≤ℤ row.ts_utc_ms
      → All (λ r. r.ts_utc_ms ≤ℤ old.ts_utc_ms) earlier
      → All (λ r. r.ts_utc_ms <ℤ old.ts_utc_ms) later
      → All (λ r. r.ts_utc_ms ≤ℤ row.ts_utc_ms) (earlier ++ old ∷ later)
  All-le row old earlier later newer he hl =
      All-append _ earlier (old ∷ later) (All-le_trans old.ts_utc_ms row.ts_utc_ms earlier newer he)
        (
          newer,
          All-le_trans old.ts_utc_ms row.ts_utc_ms later newer
              (All-le_of_lt old.ts_utc_ms later hl),
        )

  Current-newer_row :
      (row : Row F) (rows : List (Row F)) (old : Option (Row F))
      → Current rows old
      → IsLatest (rows ++ row ∷ []) (newer_row row old)
  unfolding newer_row
  Current-newer_row row rows none h = ([], [], ap (λ (l : List (Row F)). l ++ row ∷ []) h, tt, tt)
  Current-newer_row row rows (some old) (earlier, later, split, he, hl) =
      elim (Bool-cases (lebℤ old.ts_utc_ms row.ts_utc_ms)) [
        | inl newer ↦ simp newer (
          rows,
          [],
          refl,
          subst (All (λ r. r.ts_utc_ms ≤ℤ row.ts_utc_ms)) (sym split)
              (All-le row old earlier later (lebℤ→le old.ts_utc_ms row.ts_utc_ms newer) he hl),
          tt,
        )
        | inr older ↦ simp older (
          earlier,
          later ++ row ∷ [],
          ap (λ (l : List (Row F)). l ++ row ∷ []) split
              ∙ append_assoc earlier (old ∷ later) (row ∷ []),
          he,
          All-append _ later (row ∷ []) hl (lebℤ→lt old.ts_utc_ms row.ts_utc_ms older, tt),
        )
      ]

  rows_of-append :
      (tag : String) (l : List (Row F)) (row : Row F)
      → rows_of tag (l ++ row ∷ [])
        ≡ (if row.tag_id == tag then rows_of tag l ++ row ∷ [] else rows_of tag l)
  rows_of-append tag [] row = ground arith
  rows_of-append tag (r ∷ l) row = ground (arith, rows_of-append tag l row)

  -- The two statements of `persist_envelope`, for one row.
  abbrev pub record_row : Row F → Tables F → Tables F
  record_row row t = upsert_current row (insert_event row t)

  get-record_row :
      (row : Row F) (t : Tables F) (tag : String)
      → Dict.get (record_row row t).current_positions tag ≡ (
          if row.tag_id == tag
          then some (newer_row row (Dict.get t.current_positions row.tag_id))
          else Dict.get t.current_positions tag)
  unfolding upsert_current insert_event
  get-record_row row t tag = get-set t.current_positions row.tag_id tag _

  pub record_row-IsConsistent :
      (row : Row F) (t : Tables F) → IsConsistent t → IsConsistent (record_row row t)
  unfolding upsert_current insert_event
  record_row-IsConsistent row t h tag =
      rw (rows_of-append tag t.position_events row, get-record_row row t tag)
        (elim (Bool-cases (row.tag_id == tag)) [
          | inl same ↦ simp same (
              subst
                (λ k.
                  IsLatest (rows_of tag t.position_events ++ row ∷ [])
                    (newer_row row (Dict.get t.current_positions k)))
                (sym ((eq_iff row.tag_id tag).0 same))
                (Current-newer_row row (rows_of tag t.position_events)
                  (Dict.get t.current_positions tag) (h tag)))
          | inr other ↦ simp other (h tag)
        ])

  newer_row_comm :
      (a b : Row F) (old : Option (Row F))
      → a.ts_utc_ms <ℤ b.ts_utc_ms
      → newer_row a (some (newer_row b old)) ≡ newer_row b (some (newer_row a old))
  unfolding newer_row
  newer_row_comm a b none h = ground arith
  newer_row_comm a b (some old) h = ground arith

  -- A row that comes after a newer one of any tag leaves the current positions as if it had come
  -- before it.
  pub late_row :
      (a b : Row F) (t : Tables F) (tag : String)
      → a.ts_utc_ms <ℤ b.ts_utc_ms
      → Dict.get (record_row a (record_row b t)).current_positions tag
        ≡ Dict.get (record_row b (record_row a t)).current_positions tag
  late_row a b t tag h =
      rw (get-record_row a (record_row b t) tag, get-record_row b (record_row a t) tag)
        (rw (get-record_row b t tag, get-record_row a t tag)
          (rw (get-record_row b t a.tag_id, get-record_row a t b.tag_id)
            (ground (
              arith,
              eq_iff a.tag_id tag,
              eq_iff b.tag_id tag,
              eq_iff a.tag_id b.tag_id,
              eq_iff b.tag_id a.tag_id,
              newer_row_comm a b (Dict.get t.current_positions a.tag_id) h,
            ))))

-- ===== src/Backend/History/Pages.antt =====
-- Pages of the history: what they hold, and that they cover it.
use rtls_stream_visualizer.Base.{
  ℕ, zero, suc, ◌+◌, ◌-◌, String, ◌≡◌, refl, sym, ap, ◌∙◌, true, false, ◌&&◌, Option, none, some,
  List, [], ◌∷◌, ◌++◌, All-keep_of, All-take, All-drop, length-take, length-drop, drop-drop,
  take-append-take, ◌==◌, eq_iff, take, drop, length, leb, arith, All, inl, inr, Bool-cases,
}
use Prim.Native.Nat.{min}
use rtls_stream_visualizer.Base.Int.{ℤ, ◌≤ℤ◌}
use rtls_stream_visualizer.Backend.Database.{Row, Tables}
use rtls_stream_visualizer.Backend.History.{
  build_time_filters, satisfies, where_tag, get_position_history, count_position_history,
  HistoryResponse, position_history,
}

module _ {F : Type 0} where
  -- Each row is not before the ones behind it.
  abbrev pub Descending : List (Row F) → Type 0
  Descending [] = Unit
  Descending (r ∷ rs) = All (λ q. q.ts_utc_ms ≤ℤ r.ts_utc_ms) rs × Descending rs

  -- The row is of the tag and lies in the time range, where a bound is given.
  abbrev pub InRange : String → Option ℤ → Option ℤ → Row F → Type 0
  InRange tag (some a) (some b) r = (r.tag_id ≡ tag) × (a ≤ℤ r.ts_utc_ms) × (r.ts_utc_ms ≤ℤ b)
  InRange tag (some a) none r = (r.tag_id ≡ tag) × (a ≤ℤ r.ts_utc_ms)
  InRange tag none (some b) r = (r.tag_id ≡ tag) × (r.ts_utc_ms ≤ℤ b)
  InRange tag none none r = r.tag_id ≡ tag

-- ORDER BY ts_utc_ms DESC gives rows of the same number and kind, later timestamps first.
pub record IsOrderBy {F : Type 0} (order : List (Row F) → List (Row F)) : Type 1 where
  pub same_length : (rows : List (Row F)) → length (order rows) ≡ length rows
  pub same_rows : (P : Row F → Type 0) (rows : List (Row F)) → All P rows → All P (order rows)
  pub descending : (rows : List (Row F)) → Descending (order rows)

module _ {F : Type 0} where
  InRange-of_test :
      (tag : String) (from_ts to_ts : Option ℤ) (r : Row F)
      → (r.tag_id == tag && satisfies r.ts_utc_ms (build_time_filters from_ts to_ts)) ≡ true
      → InRange tag from_ts to_ts r
  unfolding satisfies build_time_filters
  InRange-of_test tag (some a) (some b) r h = ground (arith, eq_iff r.tag_id tag)
  InRange-of_test tag (some a) none r h = ground (arith, eq_iff r.tag_id tag)
  InRange-of_test tag none (some b) r h = ground (arith, eq_iff r.tag_id tag)
  InRange-of_test tag none none r h = ground (arith, eq_iff r.tag_id tag)

  where_tag-InRange :
      (tag : String) (from_ts to_ts : Option ℤ) (rows : List (Row F))
      → All (InRange tag from_ts to_ts) (where_tag tag (build_time_filters from_ts to_ts) rows)
  unfolding where_tag
  where_tag-InRange tag from_ts to_ts rows =
      All-keep_of (InRange tag from_ts to_ts) _ (InRange-of_test tag from_ts to_ts) rows

  Descending-drop : (n : ℕ) (rs : List (Row F)) → Descending rs → Descending (drop n rs)
  Descending-drop zero rs h = h
  Descending-drop (suc n) [] h = tt
  Descending-drop (suc n) (r ∷ rs) (p, h) = Descending-drop n rs h

  Descending-take : (n : ℕ) (rs : List (Row F)) → Descending rs → Descending (take n rs)
  Descending-take zero rs h = tt
  Descending-take (suc n) [] h = tt
  Descending-take (suc n) (r ∷ rs) (p, h) = (All-take _ n rs p, Descending-take n rs h)

module _ {F : Type 0} (order : List (Row F) → List (Row F)) (H : IsOrderBy order) where
  -- What a page of the history is, against all the rows that were stored.
  abbrev pub IsPage : Tables F → String → Option ℤ → Option ℤ → ℕ → ℕ → HistoryResponse F → Type 0
  IsPage t tag from_ts to_ts limit offset page =
      All (InRange tag from_ts to_ts) page.items
      × Descending page.items
      × (length page.items ≡ min limit (page.total - offset))

  abbrev pub Answers :
      Tables F → String → Option ℤ → Option ℤ → ℕ → ℕ → Option (HistoryResponse F) → Type 0
  Answers t tag from_ts to_ts limit offset none = (leb 1 limit && leb limit 1000) ≡ false
  Answers t tag from_ts to_ts limit offset (some page) =
      ((leb 1 limit && leb limit 1000) ≡ true) × IsPage t tag from_ts to_ts limit offset page

  get_position_history-IsPage :
      (t : Tables F) (tag : String) (from_ts to_ts : Option ℤ) (limit offset : ℕ)
      → IsPage t tag from_ts to_ts limit offset (record {
        items = get_position_history order t tag from_ts to_ts limit offset;
        total = count_position_history t tag from_ts to_ts;
      })
  unfolding get_position_history count_position_history
  get_position_history-IsPage t tag from_ts to_ts limit offset =
      let found : List (Row F) =
        where_tag tag (build_time_filters from_ts to_ts) t.position_events in
      (
        All-take _ limit (drop offset (order found)) (
            All-drop _ offset (order found) (
              H.same_rows (InRange tag from_ts to_ts) found
                (where_tag-InRange tag from_ts to_ts t.position_events))),
        Descending-take limit (drop offset (order found))
            (Descending-drop offset (order found) (H.descending found)),
        omega (
          arith,
          length-take limit (drop offset (order found)),
          length-drop offset (order found),
          H.same_length found,
        ),
      )

  -- The endpoint refuses a limit that is not between 1 and 1000. Else its page holds only rows of
  -- the tag within the time range, the latest first, and as many as the limit and the total that
  -- is reported beside them leave.
  pub position_history-Answers :
      (t : Tables F) (tag : String) (from_ts to_ts : Option ℤ) (limit offset : ℕ)
      → Answers t tag from_ts to_ts limit offset
          (position_history order t tag from_ts to_ts limit offset)
  unfolding position_history
  position_history-Answers t tag from_ts to_ts limit offset =
      elim (Bool-cases (leb 1 limit && leb limit 1000)) [
        | inl fine ↦ simp fine (refl, get_position_history-IsPage t tag from_ts to_ts limit offset)
        | inr wrong ↦ simp wrong refl
      ]

  -- Consecutive pages, joined, are the page that is as long as both.
  pub get_position_history-append :
      (t : Tables F) (tag : String) (from_ts to_ts : Option ℤ) (n m offset : ℕ)
      → get_position_history order t tag from_ts to_ts n offset
          ++ get_position_history order t tag from_ts to_ts m (offset + n)
        ≡ get_position_history order t tag from_ts to_ts (n + m) offset
  unfolding get_position_history
  get_position_history-append t tag from_ts to_ts n m offset =
      let rows : List (Row F) =
        order (where_tag tag (build_time_filters from_ts to_ts) t.position_events) in
      ap (λ l. take n (drop offset rows) ++ take m l) (sym (drop-drop n offset rows))
      ∙ take-append-take n m (drop offset rows)

  -- A page as long as the total, from the start, has every row.
  pub length-get_position_history :
      (t : Tables F) (tag : String) (from_ts to_ts : Option ℤ)
      → let total = count_position_history t tag from_ts to_ts in
        length (get_position_history order t tag from_ts to_ts total 0) ≡ total
  unfolding get_position_history count_position_history
  length-get_position_history t tag from_ts to_ts =
      let found : List (Row F) =
        where_tag tag (build_time_filters from_ts to_ts) t.position_events in
      omega (arith, length-take (length found) (drop 0 (order found)), H.same_length found)

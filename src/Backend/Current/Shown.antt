-- ===== src/Backend/Current/Shown.antt =====
-- What a client is shown: the snapshot has the current row of each tag, and what follows is not
-- before it.
use mathlib.Core.List.{Permᴰ}
use rtls_stream_visualizer.Base.{
  String, ◌≡◌, ◌≢◌, refl, sym, ap, ◌∙◌, subst, inl, inr, Bool, not, Bool-cases, Option, none, some,
  List, [], ◌∷◌, map, All, keep, keep_ext, true, arith, ◌==◌, eq_iff,
}
use rtls_stream_visualizer.Base.Int.{ℤ, ltbℤ}
use rtls_stream_visualizer.Base.Perms.{All-Permᴰ}
use rtls_stream_visualizer.Base.Dict
use rtls_stream_visualizer.Base.Dict.{Dict, NodupKeys}
use rtls_stream_visualizer.Python.Value.{number_of}
use rtls_stream_visualizer.Python.Runtime.{Runtime, Loaded}
use rtls_stream_visualizer.Backend.Database.{Row, Tables, Storage}
use rtls_stream_visualizer.Backend.Consumer.{World, on_messages}
use rtls_stream_visualizer.Backend.Consumer.Accepted.{accepted, on_messages-Holds}
use rtls_stream_visualizer.Backend.Current.{get_all_current_positions}
use rtls_stream_visualizer.Backend.Current.Keyed.{IsKeyed, OwnTags, record_all-IsKeyed}
use rtls_stream_visualizer.Backend.Socket.{or_zero, snapshot_timestamps, stream, waiting}
use rtls_stream_visualizer.Backend.Socket.Fresh.{
  DistinctTags, ts_of, Position, is_behind, stream-is_behind,
}

-- ORDER BY only moves rows.
abbrev pub Orders : {F : Type 0} → (List (Row F) → List (Row F)) → Type 0
Orders {F} order = (rows : List (Row F)) → Permᴰ rows (order rows)

module _ {F : Type 0} where
  abbrev rows_in : Dict (Row F) → List (Row F)
  rows_in d = map (λ entry. entry.1) d

  abbrev pub ts_in : Option (Row F) → Option ℤ
  ts_in none = none
  ts_in (some row) = some row.ts_utc_ms

  absent-rows_in :
      (d : Dict (Row F)) (tag : String)
      → OwnTags d
      → Dict.get d tag ≡ none
      → All (λ r. r.tag_id ≢ tag) (rows_in d)
  unfolding Dict.get
  absent-rows_in [] tag h e = tt
  absent-rows_in ((k, row) ∷ d) tag (p, h) e =
      (λ same. ground (arith, eq_iff k tag, p, same), absent-rows_in d tag h (ground arith))

  rows_in-DistinctTags : (d : Dict (Row F)) → NodupKeys d → OwnTags d → DistinctTags (rows_in d)
  rows_in-DistinctTags [] keys tags = tt
  rows_in-DistinctTags ((k, row) ∷ d) (fresh, keys) (p, tags) = (
    subst (λ tag. All (λ r. r.tag_id ≢ tag) (rows_in d)) (sym p) (absent-rows_in d k tags fresh),
    rows_in-DistinctTags d keys tags,
  )

  ts_of-rows_in :
      (d : Dict (Row F)) (tag : String) → OwnTags d → ts_of (rows_in d) tag ≡ ts_in (Dict.get d tag)
  unfolding Dict.get ts_of
  ts_of-rows_in [] tag h = refl
  ts_of-rows_in ((k, row) ∷ d) tag (p, h) =
      let rest = ts_of-rows_in d tag h in
      rw p
        (elim (Bool-cases (k == tag)) [ inl same ↦ simp same refl | inr other ↦ simp other rest ])

  DistinctTags-Permᴰ : (xs ys : List (Row F)) → Permᴰ xs ys → DistinctTags xs → DistinctTags ys
  DistinctTags-Permᴰ _ _ Permᴰ.nil h = h
  DistinctTags-Permᴰ _ _ (Permᴰ.cons {l₁ = xs} {l₂ = ys} x p) (q, h) = (
    subst (λ r. All (λ s. s.tag_id ≢ r.tag_id) ys) x (All-Permᴰ _ xs ys p q),
    DistinctTags-Permᴰ xs ys p h,
  )
  DistinctTags-Permᴰ _ _ (Permᴰ.swap {a = a} {b = b} {b' = b'} {l = l} x y) ((ne, q), (r, h)) =
      subst (λ u. DistinctTags (u ∷ b' ∷ l)) y
        (subst (λ v. DistinctTags (b ∷ v ∷ l)) x (((λ e. ne (sym e)), r), (q, h)))
  DistinctTags-Permᴰ _ _ (Permᴰ.trans p q) h = DistinctTags-Permᴰ _ _ q (DistinctTags-Permᴰ _ _ p h)

  ts_of-Permᴰ :
      (xs ys : List (Row F)) (tag : String)
      → Permᴰ xs ys
      → DistinctTags xs
      → ts_of xs tag ≡ ts_of ys tag
  unfolding ts_of
  ts_of-Permᴰ _ _ tag Permᴰ.nil h = refl
  ts_of-Permᴰ _ _ tag (Permᴰ.cons {a = a} {l₁ = xs} {l₂ = ys} x p) (q, h) =
      subst (λ r. ts_of (a ∷ xs) tag ≡ ts_of (r ∷ ys) tag) x (rw (ts_of-Permᴰ xs ys tag p h) refl)
  ts_of-Permᴰ _ _ tag (Permᴰ.swap {a = a} {b = b} {b' = b'} {l = l} x y) ((ne, q), (r, h)) =
      subst (λ u. ts_of (a ∷ b ∷ l) tag ≡ ts_of (u ∷ b' ∷ l) tag) y
        (subst (λ v. ts_of (a ∷ b ∷ l) tag ≡ ts_of (b ∷ v ∷ l) tag) x
          (ground (arith, ne, eq_iff a.tag_id tag, eq_iff b.tag_id tag)))
  ts_of-Permᴰ _ _ tag (Permᴰ.trans p q) h =
      ts_of-Permᴰ _ _ tag p h ∙ ts_of-Permᴰ _ _ tag q (DistinctTags-Permᴰ _ _ p h)

-- The position is before the current row of its tag, or before the epoch where the tag has none.
abbrev pub is_outdated : {F : Type 0} → Tables F → Position F → Bool
is_outdated t p = ltbℤ (number_of p.ts) (or_zero (ts_in (Dict.get t.current_positions p.tag)))

module _ {F : Type 0} (order : List (Row F) → List (Row F)) (orders : Orders order) where
  snapshot-DistinctTags :
      (t : Tables F) → IsKeyed t → DistinctTags (get_all_current_positions order t)
  unfolding get_all_current_positions
  snapshot-DistinctTags t (keys, tags) =
      let rows = rows_in t.current_positions in
      DistinctTags-Permᴰ rows (order rows) (orders rows)
        (rows_in-DistinctTags t.current_positions keys tags)

  ts_of-snapshot :
      (t : Tables F) (tag : String)
      → IsKeyed t
      → ts_of (get_all_current_positions order t) tag ≡ ts_in (Dict.get t.current_positions tag)
  unfolding get_all_current_positions
  ts_of-snapshot t tag (keys, tags) =
      let rows = rows_in t.current_positions in
      sym (
        ts_of-Permᴰ rows (order rows) tag (orders rows)
          (rows_in-DistinctTags t.current_positions keys tags))
      ∙ ts_of-rows_in t.current_positions tag tags

  keep-is_outdated :
      (t : Tables F) (ps : List (Position F))
      → IsKeyed t
      → keep (λ p. not (is_behind (get_all_current_positions order t) p)) ps
        ≡ keep (λ p. not (is_outdated t p)) ps
  keep-is_outdated t ps h =
      keep_ext (λ p. not (is_behind (get_all_current_positions order t) p))
        (λ p. not (is_outdated t p))
        (λ p. ap (λ o. not (ltbℤ (number_of p.ts) (or_zero o))) (ts_of-snapshot t p.tag h)) ps

module _ (R : Runtime) (order : List (Row R.Float) → List (Row R.Float))
    (orders : Orders order) where
  -- After any messages, a client that reads the snapshot is then sent exactly the positions that are
  -- not before the current row of their tag in the tables, nor before the epoch where their tag has
  -- none, in order, while it is connected.
  pub stream-is_outdated :
      (ms : List (Storage R.Float × Loaded R.Float)) (w : World R.Float)
      (ps : List (Position R.Float))
      → IsKeyed w.tables
      → stream R
          (snapshot_timestamps (get_all_current_positions order (on_messages R ms w).tables))
          (map (λ p. (p.envelope, true)) ps)
        ≡ record {
          sent =
              map
                (λ p. p.envelope)
                (keep (λ p. not (is_outdated (on_messages R ms w).tables p)) ps);
          last = waiting;
        }
  stream-is_outdated ms w ps h =
      let t = (on_messages R ms w).tables in
      let keyed : IsKeyed t =
        subst IsKeyed (sym (on_messages-Holds R ms w).0)
          (record_all-IsKeyed w.tables (map (λ s. s.1) (accepted R ms)) h) in
      stream-is_behind R (get_all_current_positions order t)
        (snapshot-DistinctTags order orders t keyed) ps
      ∙ ap
          (λ kept. record {
            sent = map (λ (p : Position R.Float). p.envelope) kept;
            last = waiting;
          })
          (keep-is_outdated order orders t ps keyed)

-- ===== src/Tests/Order.antt =====
-- An `ORDER BY ts_utc_ms DESC`: insertion sort.
use rtls_stream_visualizer.Base.{
  suc, ◌≡◌, refl, ap, ◌∙◌, List, [], ◌∷◌, length, All, arith, inl, inr, Bool-cases, if◌then◌else◌,
}
use rtls_stream_visualizer.Base.Int.{◌≤ℤ◌, lebℤ, lebℤ→le, lebℤ→lt}
use rtls_stream_visualizer.Backend.Database.{Row}
use rtls_stream_visualizer.Backend.Database.Latest.{All-le_trans}
use rtls_stream_visualizer.Backend.History.Pages.{IsOrderBy, Descending}

module _ {F : Type 0} where
  abbrev pub insert : Row F → List (Row F) → List (Row F)
  insert r [] = r ∷ []
  insert r (q ∷ qs) =
      let rest = insert r qs in if lebℤ q.ts_utc_ms r.ts_utc_ms then r ∷ q ∷ qs else q ∷ rest

  abbrev pub sorted : List (Row F) → List (Row F)
  sorted [] = []
  sorted (r ∷ rs) = insert r (sorted rs)

  length-insert : (r : Row F) (qs : List (Row F)) → length (insert r qs) ≡ suc (length qs)
  length-insert r [] = refl
  length-insert r (q ∷ qs) = ground (arith, length-insert r qs)

  length-sorted : (rs : List (Row F)) → length (sorted rs) ≡ length rs
  length-sorted [] = refl
  length-sorted (r ∷ rs) = length-insert r (sorted rs) ∙ ap suc (length-sorted rs)

  All-insert {ℓ} :
      (P : Row F → Type ℓ) (r : Row F) (qs : List (Row F)) → P r → All P qs → All P (insert r qs)
  All-insert P r [] p h = (p, tt)
  All-insert P r (q ∷ qs) p (a, h) = elim (Bool-cases (lebℤ q.ts_utc_ms r.ts_utc_ms)) [
    | inl newer ↦ simp newer (p, (a, h))
    | inr older ↦ simp older (a, All-insert P r qs p h)
  ]

  All-sorted {ℓ} : (P : Row F → Type ℓ) (rs : List (Row F)) → All P rs → All P (sorted rs)
  All-sorted P [] h = tt
  All-sorted P (r ∷ rs) (p, h) = All-insert P r (sorted rs) p (All-sorted P rs h)

  insert-Descending : (r : Row F) (qs : List (Row F)) → Descending qs → Descending (insert r qs)
  insert-Descending r [] h = (tt, tt)
  insert-Descending r (q ∷ qs) (p, h) = elim (Bool-cases (lebℤ q.ts_utc_ms r.ts_utc_ms)) [
    | inl newer ↦
        let le = lebℤ→le q.ts_utc_ms r.ts_utc_ms newer in
        simp newer ((le, All-le_trans q.ts_utc_ms r.ts_utc_ms qs le p), (p, h))
    | inr older ↦
        let lt = lebℤ→lt q.ts_utc_ms r.ts_utc_ms older in
        simp older (
          All-insert (λ s. s.ts_utc_ms ≤ℤ q.ts_utc_ms) r qs (omega arith) p,
          insert-Descending r qs h,
        )
  ]

  sorted-Descending : (rs : List (Row F)) → Descending (sorted rs)
  sorted-Descending [] = tt
  sorted-Descending (r ∷ rs) = insert-Descending r (sorted rs) (sorted-Descending rs)

pub sorted-IsOrderBy : {F : Type 0} → IsOrderBy (sorted {F = F})
sorted-IsOrderBy = record {
  same_length = length-sorted;
  same_rows = All-sorted;
  descending = sorted-Descending;
}

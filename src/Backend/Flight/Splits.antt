-- ===== src/Backend/Flight/Splits.antt =====
-- A handler among the others in flight: what holds of all of them, one taken out or put in.
use mathlib.Core.List.{Perm}
use mathlib.Core.List.Perm
use rtls_stream_visualizer.Base.Perms.{Perm-exchange}
use rtls_stream_visualizer.Python.Runtime.{Loaded}
use rtls_stream_visualizer.Base.{
  ℕ, suc, ◌+◌, ◌*◌, ◌≤◌, ◌≡◌, refl, ap, true, false, eq_iff, List, [], ◌∷◌, ◌++◌, length, All,
  arith,
}
use rtls_stream_visualizer.Backend.Database.{Row}
use rtls_stream_visualizer.Backend.Consumer.Accepted.{Stored}
use rtls_stream_visualizer.Backend.Flight.{
  Phase, received, inserted, upserted, stored, keeps, is_free,
}

module _ {ℓ κ} {A : Type ℓ} (P : A → Type κ) where
  pub All-out :
      (before : List A) (x : A) (after : List A)
      → All P (before ++ x ∷ after)
      → P x × All P (before ++ after)
  All-out [] x after h = h
  All-out (y ∷ before) x after (p, h) = let (q, rest) = All-out before x after h in (q, (p, rest))

  pub All-insert :
      (before : List A) (x : A) (after : List A)
      → P x
      → All P (before ++ after)
      → All P (before ++ x ∷ after)
  All-insert [] x after p h = (p, h)
  All-insert (y ∷ before) x after p (q, h) = (q, All-insert before x after p h)

module _ {ℓ} {A : Type ℓ} where
  pub length-split :
      (before : List A) (x : A) (after : List A)
      → length (before ++ x ∷ after) ≡ suc (length (before ++ after))
  length-split [] x after = refl
  length-split (y ∷ before) x after = ap suc (length-split before x after)

module _ {F : Type 0} where
  -- Not both keep the same tag.
  abbrev pub Differ : Phase F → Phase F → Type 0
  Differ (upserted envelope row current) q = keeps row.tag_id q ≡ false
  Differ p q = Unit

  abbrev pub Apart : List (Phase F) → Type 0
  Apart [] = Unit
  Apart (p ∷ flight) = All (Differ p) flight × Apart flight

  Differ-sym : (p q : Phase F) → Differ p q → Differ q p
  Differ-sym p (received m) h = tt
  Differ-sym p (inserted envelope row) h = tt
  Differ-sym p (stored envelope row) h = tt
  Differ-sym (received m) (upserted envelope row current) h = refl
  Differ-sym (inserted e r) (upserted envelope row current) h = refl
  Differ-sym (stored e r) (upserted envelope row current) h = refl
  Differ-sym (upserted e r c) (upserted envelope row current) h =
      ground (arith, eq_iff row.tag_id r.tag_id, eq_iff r.tag_id row.tag_id)

  pub Apart-out :
      (before : List (Phase F)) (p : Phase F) (after : List (Phase F))
      → Apart (before ++ p ∷ after)
      → All (Differ p) (before ++ after) × Apart (before ++ after)
  Apart-out [] p after h = h
  Apart-out (q ∷ before) p after (d, h) =
      let (qp, rest) = All-out (Differ q) before p after d in
      let (dp, apart) = Apart-out before p after h in ((Differ-sym q p qp, dp), (rest, apart))

  pub Apart-insert :
      (before : List (Phase F)) (p : Phase F) (after : List (Phase F))
      → All (Differ p) (before ++ after)
      → Apart (before ++ after)
      → Apart (before ++ p ∷ after)
  Apart-insert [] p after d h = (d, h)
  Apart-insert (q ∷ before) p after (pq, d) (e, h) =
      (All-insert (Differ q) before p after (Differ-sym p q pq) e, Apart-insert before p after d h)

  pub All-Differ_of_free :
      (envelope : _) (row current : Row F) (flight : List (Phase F))
      → is_free row.tag_id flight ≡ true
      → All (Differ (upserted envelope row current)) flight
  All-Differ_of_free envelope row current [] h = tt
  All-Differ_of_free envelope row current (q ∷ flight) h =
      (ground arith, All-Differ_of_free envelope row current flight (ground arith))

  -- What was committed and is still to be broadcast.
  abbrev pub own : Phase F → List (Stored F)
  own (stored envelope row) = (envelope, row) ∷ []
  own p = []

  unfoldable pub unoffered : List (Phase F) → List (Stored F)
  unoffered [] = []
  unoffered (p ∷ flight) = own p ++ unoffered flight

  pub unoffered-split :
      (before : List (Phase F)) (p : Phase F) (after : List (Phase F))
      → Perm (unoffered (before ++ p ∷ after)) (own p ++ unoffered (before ++ after))
  unfolding unoffered
  unoffered-split [] p after = Perm.refl _
  unoffered-split (q ∷ before) p after =
      Perm.trans (Perm.append_left (own q) (unoffered-split before p after))
        (Perm-exchange (own q) (own p) (unoffered (before ++ after)))

  pub unoffered-end :
      (flight : List (Phase F)) (m : Loaded F)
      → unoffered (flight ++ received m ∷ []) ≡ unoffered flight
  unfolding unoffered
  unoffered-end [] m = refl
  unoffered-end (q ∷ flight) m = ap (λ l. own q ++ l) (unoffered-end flight m)

  -- The steps that a handler has still to take, at most.
  abbrev pub steps_left : Phase F → ℕ
  steps_left (received m) = 4
  steps_left (inserted envelope row) = 3
  steps_left (upserted envelope row current) = 2
  steps_left (stored envelope row) = 1

  pub total : List (Phase F) → ℕ
  total [] = 0
  total (p ∷ flight) = steps_left p + total flight

  pub total-append :
      (before after : List (Phase F)) → total (before ++ after) ≡ total before + total after
  unfolding total
  total-append [] after = omega arith
  total-append (p ∷ before) after = omega (arith, total-append before after)

  pub total-split :
      (before : List (Phase F)) (p : Phase F) (after : List (Phase F))
      → total (before ++ p ∷ after) ≡ steps_left p + total (before ++ after)
  unfolding total
  total-split [] p after = refl
  total-split (q ∷ before) p after = omega (arith, total-split before p after)

  pub total-le-length : (flight : List (Phase F)) → total flight ≤ 4 * length flight
  unfolding total
  total-le-length [] = omega arith
  total-le-length (received m ∷ flight) = omega (arith, total-le-length flight)
  total-le-length (inserted e r ∷ flight) = omega (arith, total-le-length flight)
  total-le-length (upserted e r c ∷ flight) = omega (arith, total-le-length flight)
  total-le-length (stored e r ∷ flight) = omega (arith, total-le-length flight)

-- ===== src/Backend/Flight/Progress.antt =====
-- The handlers in flight get on.
use rtls_stream_visualizer.Base.{
  ◌≡◌, refl, ap, ◌∙◌, String, Bool, true, false, ◌⊎◌, inl, inr, List, [], ◌∷◌, ◌++◌,
}
use rtls_stream_visualizer.Python.Value.{Fields}
use rtls_stream_visualizer.Python.Runtime.{Runtime}
use rtls_stream_visualizer.Backend.Database.{Row, Storage}
use rtls_stream_visualizer.Backend.Flight.{
  Phase, received, inserted, upserted, stored, System, is_free, Work, begins, upserts, commits,
  rolls_back, offers,
}

module _ {F : Type 0} where
  -- A transaction that keeps a tag, among the handlers.
  abbrev Kept : List (Phase F) → Type 0
  Kept flight =
      (envelope : Fields F) × (row : Row F) × (current : Row F) × (before : List (Phase F))
      × (after : List (Phase F)) × (flight ≡ before ++ upserted envelope row current ∷ after)

  Kept-cons : (p : Phase F) (flight : List (Phase F)) → Kept flight → Kept (p ∷ flight)
  Kept-cons p flight (envelope, row, current, before, after, e) =
      (envelope, row, current, p ∷ before, after, ap (◌∷◌ p) e)

  -- One of the handlers keeps a tag, or every tag is free.
  Kept-or_free :
      (flight : List (Phase F)) → Kept flight ⊎ ((tag : String) → is_free tag flight ≡ true)
  Kept-or_free [] = inr (λ tag. refl)
  Kept-or_free (upserted envelope row current ∷ flight) =
      inl (envelope, row, current, [], flight, refl)
  Kept-or_free (received m ∷ flight) = elim (Kept-or_free flight) [
    | inl k ↦ inl (Kept-cons (received m) flight k)
    | inr free ↦ inr free
  ]
  Kept-or_free (inserted e r ∷ flight) = elim (Kept-or_free flight) [
    | inl k ↦ inl (Kept-cons (inserted e r) flight k)
    | inr free ↦ inr free
  ]
  Kept-or_free (stored e r ∷ flight) = elim (Kept-or_free flight) [
    | inl k ↦ inl (Kept-cons (stored e r) flight k)
    | inr free ↦ inr free
  ]

module _ (R : Runtime) where
  -- The step is a transaction that fails.
  abbrev pub fails : (s t : System R.Float) → Work R s t → Bool
  fails s t (rolls_back phase before after e open_) = true
  fails s t work = false

  -- A handler can go on, and no transaction has to fail for it.
  abbrev pub CanGoOn : System R.Float → Type 0
  CanGoOn s = (t : System R.Float) × (work : Work R s t) × (fails s t work ≡ false)

  -- With every tag free, the first handler can go on.
  first-CanGoOn :
      (S : Storage R.Float) (s : System R.Float) (p : Phase R.Float) (flight : List (Phase R.Float))
      → s.flight ≡ p ∷ flight
      → ((tag : String) → is_free tag (p ∷ flight) ≡ true)
      → CanGoOn s
  first-CanGoOn S s (received m) flight e free = (_, begins S m [] flight e, refl)
  first-CanGoOn S s (inserted envelope row) flight e free =
      (_, upserts envelope row [] flight e (free row.tag_id), refl)
  first-CanGoOn S s (upserted envelope row current) flight e free =
      (_, commits envelope row current [] flight e, refl)
  first-CanGoOn S s (stored envelope row) flight e free = (_, offers envelope row [] flight e, refl)

  -- Handlers never wait for one another in a circle: as long as messages are in flight, one of their
  -- handlers can go on, whatever the tags they are about, without any transaction having to be rolled
  -- back, although an upsert waits for the open transaction that has upserted its tag.
  pub progress :
      (S : Storage R.Float) (s : System R.Float) (p : Phase R.Float) (flight : List (Phase R.Float))
      → s.flight ≡ p ∷ flight
      → CanGoOn s
  progress S s p flight e = elim (Kept-or_free (p ∷ flight)) [
    | inl (envelope, row, current, before, after, split) ↦
        (_, commits envelope row current before after (e ∙ split), refl)
    | inr free ↦ first-CanGoOn S s p flight e free
  ]

-- ===== src/Backend/Redelivery/Made.antt =====
-- What the handlers of tagged envelopes have, and what their steps settle.
use mathlib.Core.List.{append-nil}
use rtls_stream_visualizer.Base.{
  ◌≡◌, refl, sym, ap, ◌∙◌, subst, true, inl, inr, Bool-cases, List, [], ◌∷◌, ◌++◌, map, All,
  All-append,
}
use rtls_stream_visualizer.Base.Raise.{Exc, ok, raise}
use rtls_stream_visualizer.Python.Value.{Fields, obj, lookup}
use rtls_stream_visualizer.Python.Runtime.{Runtime, Loaded, loaded, malformed, failed}
use rtls_stream_visualizer.Handler.Ls1000.Coords.{or_null}
use rtls_stream_visualizer.Backend.Database.{Row, Storage, row_of}
use rtls_stream_visualizer.Backend.Consumer.{Verdict, World, has_tag, on_message}
use rtls_stream_visualizer.Backend.Consumer.Accepted.{Stored}
use rtls_stream_visualizer.Backend.Consumer.Outcomes.{
  effect_of_row, on_message_tagged, on_message_untagged,
}
use rtls_stream_visualizer.Backend.Flight.{
  Phase, received, inserted, upserted, stored, System, begin, begin_tagged, begin_row, Work, begins,
  upserts, commits, rolls_back, offers,
}
use rtls_stream_visualizer.Backend.Flight.Splits.{All-out, All-insert}
use rtls_stream_visualizer.Backend.Flight.Fates.{fate}
use rtls_stream_visualizer.Backend.Redelivery.{taken, tagged, ends}

module _ {ℓ κ} {A : Type ℓ} (P : A → Type κ) where
  All-put :
      (before xs after : List A)
      → All P xs
      → All P (before ++ after)
      → All P (before ++ (xs ++ after))
  All-put [] xs after h rest = All-append P xs after h rest
  All-put (y ∷ before) xs after h (p, rest) = (p, All-put before xs after h rest)

module _ {F : Type 0} where
  pub tagged-append : (xs ys : List (Loaded F)) → tagged (xs ++ ys) ≡ tagged xs ++ tagged ys
  unfolding tagged
  tagged-append [] ys = refl
  tagged-append (loaded (obj envelope) ∷ xs) ys =
      elim (Bool-cases (has_tag (or_null (lookup envelope "payload")))) [
        | inl tagged_ ↦ simp tagged_ (ap (◌∷◌ envelope) (tagged-append xs ys))
        | inr untagged ↦ simp untagged (tagged-append xs ys)
      ]
  tagged-append (m ∷ xs) ys = tagged-append xs ys

module _ (R : Runtime) where
  -- The envelope has a tagged payload, and the row is one that some database makes of it.
  abbrev pub MadeOf : Fields R.Float → Row R.Float → Type 0
  MadeOf envelope row =
      (has_tag (or_null (lookup envelope "payload")) ≡ true)
      × ((S : Storage R.Float) × (row_of R S envelope ≡ ok row))

  abbrev pub IsMade : Phase R.Float → Type 0
  IsMade (received m) = Unit
  IsMade (inserted envelope row) = MadeOf envelope row
  IsMade (upserted envelope row current) = MadeOf envelope row
  IsMade (stored envelope row) = MadeOf envelope row

  -- A handler that goes on is of a tagged envelope with its row; one that ends here takes none from
  -- the queue.
  abbrev Starts : Loaded R.Float → List (Phase R.Float) → Verdict → Type 0
  Starts m ps v = All IsMade ps × (tagged (taken (map (λ v. (m, v)) (fate ps v))) ≡ [])

  begin_row-Starts :
      (S : Storage R.Float) (envelope : Fields R.Float) (w : World R.Float) (r : Exc (Row R.Float))
      → has_tag (or_null (lookup envelope "payload")) ≡ true
      → row_of R S envelope ≡ r
      → Starts (loaded (obj envelope)) (begin_row R envelope w r).0 (effect_of_row envelope w r).0
  unfolding begin_row tagged
  begin_row-Starts S envelope w (ok row) has made = (((has, (S, made)), tt), refl)
  begin_row-Starts S envelope w (raise e) has made = (tt, refl)

  begin_tagged-Starts :
      (S : Storage R.Float) (envelope : Fields R.Float) (w : World R.Float)
      → Starts
          (loaded (obj envelope))
          (begin_tagged R S envelope w).0
          (on_message R S (loaded (obj envelope)) w).0
  unfolding begin_tagged tagged
  begin_tagged-Starts S envelope w =
      elim (Bool-cases (has_tag (or_null (lookup envelope "payload")))) [
        | inl has ↦
            rw (on_message_tagged R S envelope w has)
              (simp has (begin_row-Starts S envelope w (row_of R S envelope) has refl))
        | inr has_none ↦ rw (on_message_untagged R S envelope w has_none) (simp has_none (tt, refl))
      ]

  begin-Starts :
      (S : Storage R.Float) (m : Loaded R.Float) (w : World R.Float)
      → Starts m (begin R S m w).0 (on_message R S m w).0
  unfolding begin on_message tagged
  begin-Starts S (malformed reason) w = (tt, refl)
  begin-Starts S (failed e) w = (tt, refl)
  begin-Starts S (loaded (obj envelope)) w = begin_tagged-Starts S envelope w
  begin-Starts S (loaded v) w = (tt, refl)

  pub Work-IsMade : (s t : System R.Float) → Work R s t → All IsMade s.flight → All IsMade t.flight
  Work-IsMade s t (begins S m before after e) h =
      let ps = (begin R S m s.world).0 in
      let (made, _) = begin-Starts S m s.world in
      let (_, others) = All-out IsMade before (received m) after (subst (All IsMade) e h) in
      All-put IsMade before ps after made others
  Work-IsMade s t (upserts envelope row before after e free) h =
      let (mine, others) =
        All-out IsMade before (inserted envelope row) after (subst (All IsMade) e h) in
      All-insert IsMade before (upserted envelope row _) after mine others
  Work-IsMade s t (commits envelope row current before after e) h =
      let (mine, others) =
        All-out IsMade before (upserted envelope row current) after (subst (All IsMade) e h) in
      All-insert IsMade before (stored envelope row) after mine others
  Work-IsMade s t (rolls_back phase before after e open_) h =
      (All-out IsMade before phase after (subst (All IsMade) e h)).1
  Work-IsMade s t (offers envelope row before after e) h =
      (All-out IsMade before (stored envelope row) after (subst (All IsMade) e h)).1

  -- What a step of a handler broadcasts are the tagged envelopes that it takes from the queue, and it
  -- logs each with its row.
  abbrev pub Settles : System R.Float → System R.Float → List (Loaded R.Float) → Type 0
  Settles s t gone =
      (more : List (Stored R.Float)) × (t.published ≡ s.published ++ more)
      × (tagged gone ≡ map (λ c. c.0) more)
      × All (λ c. MadeOf c.0 c.1) more

  Settles-nothing :
      (s t : System R.Float) (gone : List (Loaded R.Float))
      → t.published ≡ s.published
      → tagged gone ≡ []
      → Settles s t gone
  Settles-nothing s t gone same none_ = ([], same ∙ sym (append-nil s.published), none_, tt)

  pub Work-Settles :
      (s t : System R.Float) (work : Work R s t)
      → All IsMade s.flight
      → Settles s t (taken (ends R s t work))
  unfolding ends tagged
  Work-Settles s t (begins S m before after e) h =
      ([], sym (append-nil s.published), (begin-Starts S m s.world).1, tt)
  Work-Settles s t (upserts envelope row before after e free) h = Settles-nothing s t [] refl refl
  Work-Settles s t (commits envelope row current before after e) h =
      Settles-nothing s t [] refl refl
  Work-Settles s t (rolls_back phase before after e open_) h = Settles-nothing s t [] refl refl
  Work-Settles s t (offers envelope row before after e) h =
      let (mine, _) = All-out IsMade before (stored envelope row) after (subst (All IsMade) e h) in
      ((envelope, row) ∷ [], refl, simp (mine.0) refl, (mine, tt))

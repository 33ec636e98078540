-- ===== src/Backend/Flight/Sound.antt =====
-- What holds of the backend in every interleaving of its handlers.
use mathlib.Core.List.{append-nil, Perm}
use mathlib.Core.List.Perm
use rtls_stream_visualizer.Base.{
  ◌+◌, ◌≡◌, refl, sym, subst, ◌⊎◌, List, [], ◌∷◌, ◌++◌, length-append, All-append, arith, inl, inr,
  Bool-cases,
}
use rtls_stream_visualizer.Base.Raise.{Exc, ok, raise}
use rtls_stream_visualizer.Python.Value.{Fields, obj, lookup}
use rtls_stream_visualizer.Python.Runtime.{Runtime, Loaded, loaded, malformed, failed}
use rtls_stream_visualizer.Handler.Ls1000.Coords.{or_null}
use rtls_stream_visualizer.Backend.Database.{Row, Tables, Storage, row_of}
use rtls_stream_visualizer.Backend.Broadcast.{publish}
use rtls_stream_visualizer.Backend.Consumer.{World, has_tag}
use rtls_stream_visualizer.Backend.Consumer.Accepted.{record_all}
use rtls_stream_visualizer.Backend.Flight.{
  Phase, received, inserted, upserted, stored, System, upsert_on, commit_rows, begin, begin_tagged,
  begin_row, Work, begins, upserts, commits, rolls_back, offers, Step, works, delivers, visits,
  Steps, stay, go, start,
}
use rtls_stream_visualizer.Backend.Flight.Splits.{
  Differ, Apart, Apart-insert, All-Differ_of_free, unoffered, unoffered-end,
}
use rtls_stream_visualizer.Backend.Flight.Rest.{
  IsSound, Rest, Rest-of, IsSound-drop, IsSound-put, All-true, own-in_transaction, Rest-commit,
  Rest-offer, IsRight,
}

module _ (R : Runtime) where
  -- The first part of a handler leaves the tables alone.
  abbrev pub Begun : World R.Float → List (Phase R.Float) × World R.Float → Type 0
  Begun w (phases, after) =
      (after.tables ≡ w.tables)
      × (after.broadcast ≡ w.broadcast)
      × (after.processed ≡ w.processed)
      × ((phases ≡ [])
          ⊎ ((envelope : Fields R.Float) × (row : Row R.Float) × (phases
                ≡ inserted envelope row ∷ [])))

  begin_row-Begun :
      (envelope : Fields R.Float) (w : World R.Float) (r : Exc (Row R.Float))
      → Begun w (begin_row R envelope w r)
  unfolding begin_row
  begin_row-Begun envelope w (ok row) = (refl, refl, refl, inr (envelope, row, refl))
  begin_row-Begun envelope w (raise e) = (refl, refl, refl, inl refl)

  begin_tagged-Begun :
      (S : Storage R.Float) (envelope : Fields R.Float) (w : World R.Float)
      → Begun w (begin_tagged R S envelope w)
  unfolding begin_tagged
  begin_tagged-Begun S envelope w =
      elim (Bool-cases (has_tag (or_null (lookup envelope "payload")))) [
        | inl tagged ↦ simp tagged (begin_row-Begun envelope w (row_of R S envelope))
        | inr untagged ↦ simp untagged (refl, refl, refl, inl refl)
      ]

  pub begin-Begun :
      (S : Storage R.Float) (m : Loaded R.Float) (w : World R.Float) → Begun w (begin R S m w)
  unfolding begin
  begin-Begun S (malformed reason) w = (refl, refl, refl, inl refl)
  begin-Begun S (failed e) w = (refl, refl, refl, inl refl)
  begin-Begun S (loaded (obj envelope)) w = begin_tagged-Begun S envelope w
  begin-Begun S (loaded v) w = (refl, refl, refl, inl refl)

  begins-IsSound :
      (t0 : Tables R.Float) (s : System R.Float) (before : List (Phase R.Float))
      (m : Loaded R.Float) (after : List (Phase R.Float)) (o : List (Phase R.Float) × World R.Float)
      → s.flight ≡ before ++ received m ∷ after
      → Begun s.world o
      → IsSound t0 s
      → IsSound t0 (record s { world = o.1; flight = before ++ (o.0 ++ after) })
  begins-IsSound t0 s before m after (phases, w) e (same, _, _, inl none_left) h =
      let (rest, _, _) = Rest-of t0 s before (received m) after e h in
      subst (λ ps. IsSound t0 (record s { world = w; flight = before ++ (ps ++ after) }))
        (sym none_left)
        (IsSound-drop t0 w s.committed s.published (before ++ after)
          (subst (λ t. Rest t0 t s.committed s.published [] (before ++ after)) (sym same) rest))
  begins-IsSound t0 s before m after (phases, w) e (same, _, _, inr (envelope, row, one)) h =
      let (rest, differ, _) = Rest-of t0 s before (received m) after e h in
      subst (λ ps. IsSound t0 (record s { world = w; flight = before ++ (ps ++ after) })) (sym one)
        (IsSound-put t0 w s.committed s.published before (inserted envelope row) after
          (subst (λ t. Rest t0 t s.committed s.published [] (before ++ after)) (sym same) rest)
          differ tt)

  -- A step of a handler keeps it.
  Work-IsSound :
      (t0 : Tables R.Float) (s t : System R.Float) → Work R s t → IsSound t0 s → IsSound t0 t
  Work-IsSound t0 s t (begins S m before after e) h =
      begins-IsSound t0 s before m after (begin R S m s.world) e (begin-Begun S m s.world) h
  Work-IsSound t0 s t (upserts envelope row before after e free) h =
      let (rest, _, _) = Rest-of t0 s before (inserted envelope row) after e h in
      let current = upsert_on s.world.tables row in
      IsSound-put t0 s.world s.committed s.published before (upserted envelope row current) after
        rest (All-Differ_of_free envelope row current (before ++ after) free) refl
  Work-IsSound t0 s t (commits envelope row current before after e) h =
      let (rest, differ, mine) = Rest-of t0 s before (upserted envelope row current) after e h in
      IsSound-put t0 (record s.world { tables = commit_rows row current s.world.tables })
        (s.committed ++ (envelope, row) ∷ []) s.published before (stored envelope row) after
        (Rest-commit t0 s.world.tables s.committed s.published (before ++ after) envelope row
          current differ mine rest)
        (All-true (Differ (stored envelope row)) (λ p. tt) (before ++ after)) tt
  Work-IsSound t0 s t (rolls_back phase before after e open_) h =
      let (rest, _, _) = Rest-of t0 s before phase after e h in
      IsSound-drop t0 (record s.world { db_error = s.world.db_error + 1 }) s.committed s.published
        (before ++ after)
        (subst (λ l. Rest t0 s.world.tables s.committed s.published l (before ++ after))
          (own-in_transaction phase open_) rest)
  Work-IsSound t0 s t (offers envelope row before after e) h =
      let (rest, _, _) = Rest-of t0 s before (stored envelope row) after e h in
      IsSound-drop t0
        (record s.world {
          broadcast = publish s.world.broadcast envelope;
          processed = s.world.processed + 1;
        })
        s.committed (s.published ++ (envelope, row) ∷ []) (before ++ after)
        (Rest-offer t0 s.world.tables s.committed s.published (before ++ after) (envelope, row)
          rest)

  Step-IsSound :
      (t0 : Tables R.Float) (s t : System R.Float) → Step R s t → IsSound t0 s → IsSound t0 t
  Step-IsSound t0 s t (works w) h = Work-IsSound t0 s t w h
  Step-IsSound t0 s t (delivers m room) h = record {
    few = omega (arith, length-append s.flight (received m ∷ []));
    serial = h.serial;
    logs = subst (λ l. Perm (s.published ++ l) s.committed) (sym (unoffered-end s.flight m)) h.logs;
    apart =
        Apart-insert s.flight (received m) []
          (All-true (Differ (received m)) (λ p. tt) (s.flight ++ []))
          (subst Apart (sym (append-nil s.flight)) h.apart);
    right = All-append (IsRight s.world.tables) s.flight (received m ∷ []) h.right (tt, tt);
  }
  Step-IsSound t0 s t (visits op visit) h = record {
    few = h.few;
    serial = h.serial;
    logs = h.logs;
    apart = h.apart;
    right = h.right;
  }

  -- From the start of the consumer, in any interleaving of its handlers, of deliveries and of
  -- clients: no more messages are in flight than the broker hands out; the tables are exactly what
  -- the committed messages make of the first ones, one after another; what was broadcast and what is
  -- committed and still to be broadcast are, together, what was committed, each as often; and no two
  -- open transactions keep the same tag.
  pub Steps-IsSound :
      (w : World R.Float) (s : System R.Float) → Steps R (start w) s → IsSound w.tables s
  unfolding record_all unoffered
  Steps-IsSound w s stay = record {
    few = omega arith;
    serial = refl;
    logs = Perm.refl [];
    apart = tt;
    right = tt;
  }
  Steps-IsSound w s (go {t} steps step) = Step-IsSound w.tables t s step (Steps-IsSound w t steps)

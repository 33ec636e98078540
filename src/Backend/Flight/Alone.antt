-- ===== src/Backend/Flight/Alone.antt =====
-- Handlers that do not overlap: the handler of Backend.Consumer is a run of its steps.
use mathlib.Core.List.{append-nil, append_assoc}
use rtls_stream_visualizer.Base.{
  ◌+◌, refl, sym, subst, inl, inr, Bool-cases, List, [], ◌∷◌, ◌++◌, arith,
}
use rtls_stream_visualizer.Base.Raise.{Exc, ok, raise}
use rtls_stream_visualizer.Python.Value.{obj, Fields, lookup}
use rtls_stream_visualizer.Python.Runtime.{Runtime, Loaded, loaded, malformed, failed}
use rtls_stream_visualizer.Handler.Ls1000.Coords.{or_null}
use rtls_stream_visualizer.Backend.Database.{Row, Storage, row_of, insert_event, upsert_current}
use rtls_stream_visualizer.Backend.Consumer.{World, has_tag, on_message, on_messages}
use rtls_stream_visualizer.Backend.Consumer.Outcomes.{
  effect_of_row, on_message_tagged, on_message_untagged,
}
use rtls_stream_visualizer.Backend.Consumer.Accepted.{Stored, with_row, accepted_of, accepted}
use rtls_stream_visualizer.Backend.Flight.{
  Phase, inserted, System, upsert_on, begin, begin_tagged, begin_row, begins, upserts, commits,
  offers, works, delivers, Steps, stay, go,
}

-- Nothing is in flight, and these were stored and broadcast.
abbrev pub idle : {F : Type 0} → World F → List (Stored F) → System F
idle w done = record { world = w; flight = []; committed = done; published = done }

abbrev handling : {F : Type 0} → List (Phase F) → World F → List (Stored F) → System F
handling flight w done = record { world = w; flight = flight; committed = done; published = done }

module _ (R : Runtime) where
  Steps-append : (s t u : System R.Float) → Steps R s t → Steps R t u → Steps R s u
  Steps-append s t u h stay = h
  Steps-append s t u h (go {t = m} steps step) = go (Steps-append s t m h steps) step

  -- The rest of a handler whose event is inserted.
  inserted-Steps :
      (envelope : Fields R.Float) (row : Row R.Float) (w : World R.Float)
      (done : List (Stored R.Float))
      → Steps R
          (handling (inserted envelope row ∷ []) w done)
          (idle (effect_of_row envelope w (ok row)).1 (done ++ (envelope, row) ∷ []))
  unfolding insert_event upsert_current
  inserted-Steps envelope row w done =
      go
        (go (go stay (works (upserts envelope row [] [] refl refl)))
          (works (commits envelope row (upsert_on w.tables row) [] [] refl)))
        (works (offers envelope row [] [] refl))

  nothing-Steps :
      (w : World R.Float) (done : List (Stored R.Float))
      → Steps R (idle w done) (idle w (done ++ []))
  nothing-Steps w done = subst (λ l. Steps R (idle w done) (idle w l)) (sym (append-nil done)) stay

  row-Steps :
      (envelope : Fields R.Float) (r : Exc (Row R.Float)) (w : World R.Float)
      (done : List (Stored R.Float))
      → Steps R
          (handling (begin_row R envelope w r).0 (begin_row R envelope w r).1 done)
          (idle (effect_of_row envelope w r).1 (done ++ with_row envelope r))
  unfolding begin_row
  row-Steps envelope (ok row) w done = inserted-Steps envelope row w done
  row-Steps envelope (raise e) w done = nothing-Steps (record w { db_error = w.db_error + 1 }) done

  object-Steps :
      (S : Storage R.Float) (envelope : Fields R.Float) (w : World R.Float)
      (done : List (Stored R.Float))
      → Steps R (handling (begin_tagged R S envelope w).0 (begin_tagged R S envelope w).1 done) (
          idle
            (on_message R S (loaded (obj envelope)) w).1
            (done ++ accepted_of R S (loaded (obj envelope))))
  unfolding begin_tagged
  object-Steps S envelope w done =
      elim (Bool-cases (has_tag (or_null (lookup envelope "payload")))) [
        | inl tagged ↦
            rw (on_message_tagged R S envelope w tagged)
              (simp tagged (row-Steps envelope (row_of R S envelope) w done))
        | inr untagged ↦ rw (on_message_untagged R S envelope w untagged) (
            simp untagged (nothing-Steps (record w { missing_tag_id = w.missing_tag_id + 1 }) done))
      ]

  begin-Steps :
      (S : Storage R.Float) (m : Loaded R.Float) (w : World R.Float) (done : List (Stored R.Float))
      → Steps R
          (handling (begin R S m w).0 (begin R S m w).1 done)
          (idle (on_message R S m w).1 (done ++ accepted_of R S m))
  unfolding begin on_message
  begin-Steps S (malformed reason) w done =
      nothing-Steps (record w { malformed_json = w.malformed_json + 1 }) done
  begin-Steps S (failed e) w done = nothing-Steps w done
  begin-Steps S (loaded (obj envelope)) w done = object-Steps S envelope w done
  begin-Steps S (loaded v) w done = nothing-Steps w done

  on_message-Steps :
      (S : Storage R.Float) (m : Loaded R.Float) (w : World R.Float) (done : List (Stored R.Float))
      → Steps R (idle w done) (idle (on_message R S m w).1 (done ++ accepted_of R S m))
  on_message-Steps S m w done =
      let o = begin R S m w in
      let begun : Steps R (idle w done) (handling o.0 o.1 done) =
        subst (λ l. Steps R (idle w done) (handling l o.1 done)) (append-nil o.0)
          (go (go stay (delivers m (omega arith))) (works (begins S m [] [] refl))) in
      Steps-append (idle w done) (handling o.0 o.1 done)
        (idle (on_message R S m w).1 (done ++ accepted_of R S m)) begun (begin-Steps S m w done)

  -- Messages that are handled one after another, whatever the database does meanwhile, are a run of
  -- the concurrent consumer, with the same tables, queues and counters at its end, where exactly the
  -- accepted messages were committed and broadcast.
  pub on_messages-Steps :
      (ms : List (Storage R.Float × Loaded R.Float)) (w : World R.Float)
      (done : List (Stored R.Float))
      → Steps R (idle w done) (idle (on_messages R ms w) (done ++ accepted R ms))
  unfolding on_messages accepted
  on_messages-Steps [] w done = nothing-Steps w done
  on_messages-Steps ((S, m) ∷ ms) w done =
      let middle = (on_message R S m w).1 in
      let more = done ++ accepted_of R S m in
      Steps-append (idle w done) (idle middle more)
        (idle (on_messages R ms middle) (done ++ (accepted_of R S m ++ accepted R ms)))
        (on_message-Steps S m w done)
        (subst (λ l. Steps R (idle middle more) (idle (on_messages R ms middle) l))
          (append_assoc done (accepted_of R S m) (accepted R ms))
          (on_messages-Steps ms middle more))

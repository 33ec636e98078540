-- ===== src/Backend/Flight/Fates.antt =====
-- What becomes of the messages that the broker delivers: each is in flight or has one verdict.
use rtls_stream_visualizer.Base.{
  ℕ, suc, ◌+◌, ◌≡◌, refl, ap, inl, inr, Bool-cases, List, [], ◌∷◌, ◌++◌, length, length-append,
  arith,
}
use rtls_stream_visualizer.Base.Raise.{Exc, ok, raise}
use rtls_stream_visualizer.Python.Value.{obj, Fields, lookup}
use rtls_stream_visualizer.Python.Runtime.{Runtime, Loaded, loaded, malformed, failed}
use rtls_stream_visualizer.Handler.Ls1000.Coords.{or_null}
use rtls_stream_visualizer.Backend.Database.{Row, Storage, row_of}
use rtls_stream_visualizer.Backend.Consumer.{Verdict, acked, requeued, World, has_tag, on_message}
use rtls_stream_visualizer.Backend.Consumer.Outcomes.{
  effect_of_row, on_message_tagged, on_message_untagged,
}
use rtls_stream_visualizer.Backend.Flight.{
  Phase, received, inserted, upserted, stored, System, begin, begin_tagged, begin_row, Work, begins,
  upserts, commits, rolls_back, offers, Step, works, delivers, visits, Steps, stay, go,
}
use rtls_stream_visualizer.Backend.Flight.Splits.{length-split}

-- A handler without a phase left has ended with its verdict.
abbrev pub fate : {F : Type 0} → List (Phase F) → Verdict → List Verdict
fate [] v = v ∷ []
fate (p ∷ phases) v = []

abbrev pub acks : List Verdict → ℕ
acks [] = 0
acks (acked ∷ vs) = suc (acks vs)
acks (requeued ∷ vs) = acks vs

acks-append : (vs ws : List Verdict) → acks (vs ++ ws) ≡ acks vs + acks ws
acks-append [] ws = omega arith
acks-append (acked ∷ vs) ws = omega (arith, acks-append vs ws)
acks-append (requeued ∷ vs) ws = acks-append vs ws

-- The messages that the counters of the consumer say were handled.
abbrev pub handled : {F : Type 0} → World F → ℕ
handled w = w.processed + w.malformed_json + w.missing_tag_id

module _ (R : Runtime) where
  -- The verdicts of one step of a handler.
  unfoldable pub verdicts_of : (s t : System R.Float) → Work R s t → List Verdict
  verdicts_of s t (begins S m before after e) =
      fate (begin R S m s.world).0 (on_message R S m s.world).0
  verdicts_of s t (upserts envelope row before after e free) = []
  verdicts_of s t (commits envelope row current before after e) = []
  verdicts_of s t (rolls_back phase before after e open_) = requeued ∷ []
  verdicts_of s t (offers envelope row before after e) = acked ∷ []

  abbrev pub verdicts_in : (s t : System R.Float) → Step R s t → List Verdict
  verdicts_in s t (works work) = verdicts_of s t work
  verdicts_in s t (delivers m room) = []
  verdicts_in s t (visits op visit) = []

  abbrev pub deliveries_in : (s t : System R.Float) → Step R s t → ℕ
  deliveries_in s t (works work) = 0
  deliveries_in s t (delivers m room) = 1
  deliveries_in s t (visits op visit) = 0

  unfoldable pub verdicts : (s t : System R.Float) → Steps R s t → List Verdict
  verdicts s t stay = []
  verdicts s t (go {t = m} steps step) = verdicts s m steps ++ verdicts_in m t step

  unfoldable pub deliveries : (s t : System R.Float) → Steps R s t → ℕ
  deliveries s t stay = 0
  deliveries s t (go {t = m} steps step) = deliveries s m steps + deliveries_in m t step

  -- A handler goes on or has its verdict, and the counters count it if that is an acknowledgement.
  abbrev Fated : World R.Float → List (Phase R.Float) × World R.Float → Verdict → Type 0
  Fated w (phases, after) v =
      (length phases + length (fate phases v) ≡ 1)
      × (handled after ≡ handled w + acks (fate phases v))

  begin_row-Fated :
      (envelope : Fields R.Float) (w : World R.Float) (r : Exc (Row R.Float))
      → Fated w (begin_row R envelope w r) (effect_of_row envelope w r).0
  unfolding begin_row
  begin_row-Fated envelope w (ok row) = (refl, omega arith)
  begin_row-Fated envelope w (raise e) = (refl, omega arith)

  begin_tagged-Fated :
      (S : Storage R.Float) (envelope : Fields R.Float) (w : World R.Float)
      → Fated w (begin_tagged R S envelope w) (on_message R S (loaded (obj envelope)) w).0
  unfolding begin_tagged
  begin_tagged-Fated S envelope w =
      elim (Bool-cases (has_tag (or_null (lookup envelope "payload")))) [
        | inl tagged ↦
            rw (on_message_tagged R S envelope w tagged)
              (simp tagged (begin_row-Fated envelope w (row_of R S envelope)))
        | inr untagged ↦
            rw (on_message_untagged R S envelope w untagged) (simp untagged (refl, omega arith))
      ]

  begin-Fated :
      (S : Storage R.Float) (m : Loaded R.Float) (w : World R.Float)
      → Fated w (begin R S m w) (on_message R S m w).0
  unfolding begin on_message
  begin-Fated S (malformed reason) w = (refl, omega arith)
  begin-Fated S (failed e) w = (refl, omega arith)
  begin-Fated S (loaded (obj envelope)) w = begin_tagged-Fated S envelope w
  begin-Fated S (loaded v) w = (refl, omega arith)

  -- The balance of a step: messages in flight and verdicts against deliveries, and the counters.
  abbrev Balanced : System R.Float → System R.Float → List Verdict → ℕ → Type 0
  Balanced s t vs delivered =
      (length t.flight + length vs ≡ length s.flight + delivered)
      × (handled t.world ≡ handled s.world + acks vs)

  length-middle :
      (before phases after : List (Phase R.Float))
      → length (before ++ (phases ++ after)) ≡ length (before ++ after) + length phases
  length-middle before phases after = omega (
    arith,
    length-append before (phases ++ after),
    length-append phases after,
    length-append before after,
  )

  Work-Balanced : (s t : System R.Float) (work : Work R s t) → Balanced s t (verdicts_of s t work) 0
  unfolding verdicts_of
  Work-Balanced s t (begins S m before after e) =
      let (one, counted) = begin-Fated S m s.world in
      (
        omega (
          arith,
          one,
          ap length e,
          length-split before (received m) after,
          length-middle before (begin R S m s.world).0 after,
        ),
        counted,
      )
  Work-Balanced s t (upserts envelope row before after e free) = (
    omega (
      arith,
      ap length e,
      length-split before (inserted envelope row) after,
      length-split before (upserted envelope row _) after,
    ),
    omega arith,
  )
  Work-Balanced s t (commits envelope row current before after e) = (
    omega (
      arith,
      ap length e,
      length-split before (upserted envelope row current) after,
      length-split before (stored envelope row) after,
    ),
    omega arith,
  )
  Work-Balanced s t (rolls_back phase before after e open_) =
      (omega (arith, ap length e, length-split before phase after), omega arith)
  Work-Balanced s t (offers envelope row before after e) =
      (omega (arith, ap length e, length-split before (stored envelope row) after), omega arith)

  Step-Balanced :
      (s t : System R.Float) (step : Step R s t)
      → Balanced s t (verdicts_in s t step) (deliveries_in s t step)
  Step-Balanced s t (works work) = Work-Balanced s t work
  Step-Balanced s t (delivers m room) =
      (omega (arith, length-append s.flight (received m ∷ [])), omega arith)
  Step-Balanced s t (visits op visit) = (omega arith, omega arith)

  -- No message is lost or settled twice: in any run, those that were in flight or delivered are as
  -- many as those still in flight and those with a verdict together; and the counters of processed
  -- and of dropped messages have grown by exactly the acknowledgements.
  pub Steps-Balanced :
      (s t : System R.Float) (steps : Steps R s t)
      → (length t.flight + length (verdicts s t steps) ≡ length s.flight + deliveries s t steps)
        × (handled t.world ≡ handled s.world + acks (verdicts s t steps))
  unfolding verdicts deliveries
  Steps-Balanced s t stay = (omega arith, omega arith)
  Steps-Balanced s t (go {t = m} steps step) =
      let (flight, counted) = Steps-Balanced s m steps in
      let (flight', counted') = Step-Balanced m t step in
      (
        omega (arith, flight, flight', length-append (verdicts s m steps) (verdicts_in m t step)),
        omega (arith, counted, counted', acks-append (verdicts s m steps) (verdicts_in m t step)),
      )

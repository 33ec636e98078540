-- ===== src/Backend/Redelivery/Settled.antt =====
-- What has become of the messages whose handlers have returned, across the runs of the backend.
use mathlib.Core.List.{append-nil, append_assoc, map-append, Mem, Perm}
use mathlib.Core.List.Perm
use rtls_stream_visualizer.Base.{
  ◌≡◌, refl, sym, ap, ap₂, ◌∙◌, subst, List, [], ◌∷◌, ◌++◌, map, All, All-append, arith,
}
use rtls_stream_visualizer.Base.Perms.{Perm-zip, Perm-parts}
use rtls_stream_visualizer.Python.Value.{Fields}
use rtls_stream_visualizer.Python.Runtime.{Runtime, Loaded}
use rtls_stream_visualizer.Backend.Database.{Row, Tables}
use rtls_stream_visualizer.Backend.Consumer.{World}
use rtls_stream_visualizer.Backend.Consumer.Accepted.{Stored, record_all, record_all-append}
use rtls_stream_visualizer.Backend.Flight.{received, System, Step, Steps, start}
use rtls_stream_visualizer.Backend.Flight.Splits.{unoffered}
use rtls_stream_visualizer.Backend.Flight.Sound.{Steps-IsSound}
use rtls_stream_visualizer.Backend.Redelivery.{
  Broker, taken, tagged, ends, restarted, Turn, arrives, delivers, works, acknowledges, visits,
  restarts, Turns, stay, go, arrived, new_broker,
}
use rtls_stream_visualizer.Backend.Redelivery.Conserved.{held, Turns-Perm, Turns-again}
use rtls_stream_visualizer.Backend.Redelivery.Made.{
  tagged-append, MadeOf, IsMade, Work-IsMade, Settles, Work-Settles,
}

module _ {F : Type 0} where
  -- The logs of all runs.
  abbrev pub all_committed : Broker F → List (Stored F)
  all_committed b = b.committed ++ b.system.committed

  abbrev pub all_published : Broker F → List (Stored F)
  all_published b = b.published ++ b.system.published

  abbrev rows_of : List (Stored F) → List (Row F)
  rows_of cs = map (λ c. c.1) cs

  abbrev envelopes_of : List (Stored F) → List (Fields F)
  envelopes_of cs = map (λ c. c.0) cs

  record_runs :
      (t0 t1 t2 : Tables F) (cs ds : List (Stored F))
      → t1 ≡ record_all t0 (rows_of cs)
      → t2 ≡ record_all t1 (rows_of ds)
      → t2 ≡ record_all t0 (rows_of (cs ++ ds))
  record_runs t0 t1 t2 cs ds first second =
      second
      ∙ ap (λ t. record_all t (rows_of ds)) first
      ∙ sym (record_all-append t0 (rows_of cs) (rows_of ds))
      ∙ ap (record_all t0) (sym (map-append (λ (c : Stored F). c.1) cs ds))

module _ (R : Runtime) where
  -- What holds of the queue and its backend, `t0` being the tables at the start.
  pub record IsSettled (t0 : Tables R.Float) (b : Broker R.Float) : Type 0 where
    -- The run that goes on, from its start.
    pub epoch : World R.Float
    pub steps : Steps R (start epoch) b.system
    pub tables : epoch.tables ≡ record_all t0 (rows_of b.committed)
    pub logs : Perm (b.published ++ b.lost) b.committed
    pub made : All (IsMade R) b.system.flight
    -- The tagged envelopes whose handlers have returned are the ones that were broadcast.
    pub settled : tagged b.settled ≡ envelopes_of (all_published b)
    pub sources : All (λ c. MadeOf R c.0 c.1) (all_published b)

  settle :
      (b : Broker R.Float) (t : System R.Float) (gone : List (Loaded R.Float))
      → Settles R b.system t gone
      → tagged b.settled ≡ envelopes_of (all_published b)
      → All (λ c. MadeOf R c.0 c.1) (all_published b)
      → (tagged (b.settled ++ gone) ≡ envelopes_of (b.published ++ t.published))
        × All (λ c. MadeOf R c.0 c.1) (b.published ++ t.published)
  settle b t gone (more, log, same, made) settled sources =
      let logs : b.published ++ t.published ≡ all_published b ++ more =
        ap (λ l. b.published ++ l) log ∙ sym (append_assoc b.published b.system.published more) in
      (
        tagged-append b.settled gone
            ∙ ap₂ (λ (x y : List (Fields R.Float)). x ++ y) settled same
            ∙ sym (map-append (λ (c : Stored R.Float). c.0) (all_published b) more)
            ∙ ap (λ (l : List (Stored R.Float)). envelopes_of l) (sym logs),
        subst (All (λ c. MadeOf R c.0 c.1)) (sym logs)
            (All-append (λ c. MadeOf R c.0 c.1) (all_published b) more sources made),
      )

  Turn-IsSettled :
      (t0 : Tables R.Float) (b c : Broker R.Float) → Turn R b c → IsSettled t0 b → IsSettled t0 c
  Turn-IsSettled t0 b c (arrives m) h = record {
    epoch = h.epoch;
    steps = h.steps;
    tables = h.tables;
    logs = h.logs;
    made = h.made;
    settled = h.settled;
    sources = h.sources;
  }
  Turn-IsSettled t0 b c (delivers m before after e room) h = record {
    epoch = h.epoch;
    steps = Steps.go h.steps (Step.delivers m (omega (arith, room)));
    tables = h.tables;
    logs = h.logs;
    made = All-append (IsMade R) b.system.flight (received m ∷ []) h.made (tt, tt);
    settled = h.settled;
    sources = h.sources;
  }
  Turn-IsSettled t0 b c (works {t} work) h =
      let (settled, sources) =
        settle b t (taken (ends R b.system t work)) (Work-Settles R b.system t work h.made)
          h.settled h.sources in
      record {
        epoch = h.epoch;
        steps = Steps.go h.steps (Step.works work);
        tables = h.tables;
        logs = h.logs;
        made = Work-IsMade R b.system t work h.made;
        settled = settled;
        sources = sources;
      }
  Turn-IsSettled t0 b c (acknowledges m before after e) h = record {
    epoch = h.epoch;
    steps = h.steps;
    tables = h.tables;
    logs = h.logs;
    made = h.made;
    settled = h.settled;
    sources = h.sources;
  }
  Turn-IsSettled t0 b c (visits op visit) h = record {
    epoch = h.epoch;
    steps = Steps.go h.steps (Step.visits op visit);
    tables = h.tables;
    logs = h.logs;
    made = h.made;
    settled = h.settled;
    sources = h.sources;
  }
  Turn-IsSettled t0 b c restarts h =
      let sound = Steps-IsSound R h.epoch b.system h.steps in
      record {
        epoch = restarted b.system.world;
        steps = Steps.stay;
        tables =
            record_runs t0 h.epoch.tables b.system.world.tables b.committed b.system.committed
              h.tables sound.serial;
        logs =
            Perm-zip b.published b.lost b.system.published (unoffered b.system.flight) b.committed
              b.system.committed h.logs sound.logs;
        made = tt;
        settled =
            h.settled
            ∙ ap (λ (l : List (Stored R.Float)). envelopes_of l)
                (sym (append-nil (all_published b)));
        sources =
            subst (All (λ c. MadeOf R c.0 c.1)) (sym (append-nil (all_published b))) h.sources;
      }

  pub Turns-IsSettled :
      (w : World R.Float) (b : Broker R.Float) → Turns R (new_broker w) b → IsSettled w.tables b
  unfolding record_all tagged
  Turns-IsSettled w b stay = record {
    epoch = w;
    steps = Steps.stay;
    tables = refl;
    logs = Perm.refl [];
    made = tt;
    settled = refl;
    sources = tt;
  }
  Turns-IsSettled w b (go {c = m} turns turn) =
      Turn-IsSettled w.tables m b turn (Turns-IsSettled w m turns)

  -- The queue is empty and no handler has a message.
  pub record IsIdle (b : Broker R.Float) : Type 0 where
    pub no_ready : b.ready ≡ []
    pub no_flight : b.system.flight ≡ []

  -- Once the queue and the handlers have nothing left, in any interleaving and with any restarts, while
  -- each run keeps its connection to the broker: the envelopes that were broadcast are, each as often,
  -- the tagged ones that were published to the queue, each at least once, and over and above those that
  -- were delivered again because the acknowledgement had not reached the broker when a run ended; the
  -- latter are all of messages that were published. The tables are what the committed rows make of the
  -- first ones, one after another; and the committed rows are those that were broadcast and those of
  -- which a run had committed but not yet broadcast when it ended.
  pub Turns-delivered :
      (w : World R.Float) (b : Broker R.Float) (turns : Turns R (new_broker w) b)
      → IsIdle b
      → Perm
          (tagged (arrived R (new_broker w) b turns) ++ tagged b.again)
          (map (λ c. c.0) (all_published b))
        × ((x : Loaded R.Float) → Mem x b.again → Mem x (arrived R (new_broker w) b turns))
        × (b.system.world.tables ≡ record_all w.tables (map (λ c. c.1) (all_committed b)))
        × Perm (all_published b ++ b.lost) (all_committed b)
  unfolding unoffered
  Turns-delivered w b turns idle =
      let h = Turns-IsSettled w b turns in
      let sound = Steps-IsSound R h.epoch b.system h.steps in
      let gone : held b ≡ b.settled = rw (idle.no_ready, idle.no_flight) refl in
      let mine : Perm b.system.published b.system.committed =
        subst (λ l. Perm l b.system.committed)
          (ap (λ f. b.system.published ++ unoffered f) idle.no_flight
            ∙ append-nil b.system.published)
          sound.logs in
      (
        subst (λ l. Perm l (map (λ c. c.0) (all_published b)))
            (tagged-append (arrived R (new_broker w) b turns) b.again)
            (subst (Perm (tagged (arrived R (new_broker w) b turns ++ b.again)))
              (ap tagged gone ∙ h.settled)
              (Perm-parts tagged tagged-append (Turns-Perm R w b turns))),
        Turns-again R w b turns,
        record_runs w.tables h.epoch.tables b.system.world.tables b.committed b.system.committed
            h.tables sound.serial,
        subst (λ l. Perm (all_published b ++ l) (all_committed b)) (append-nil b.lost)
            (Perm-zip b.published b.lost b.system.published [] b.committed b.system.committed h.logs
              (Perm.trans
                (subst (λ l. Perm l b.system.published) (sym (append-nil b.system.published))
                  (Perm.refl _))
                mine)),
      )

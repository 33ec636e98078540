-- ===== src/Backend/Embedded/Recovery.antt =====
-- The embedded consumer while the broker is away, and when it is back.
use rtls_stream_visualizer.Base.{◌≡◌, refl, ap, ◌∙◌, Bool, true, false, List, [], ◌∷◌, ◌++◌, All}
use rtls_stream_visualizer.Core.Config.Types.{RabbitMqConfig}
use rtls_stream_visualizer.Core.Broker.Calls.{
  Call, close_connection, Answers, AllAnswered, make, make-AllAnswered,
}
use rtls_stream_visualizer.Backend.Embedded.{
  set_up, Round, Consumer, Ending, stopped, escaped, consuming, retrying, attempt, close_newest,
  close_open, leave, after_attempt, run_consumer, lifespan, new_consumer, is_stopped,
}
use rtls_stream_visualizer.Backend.Embedded.Rounds.{IsClosed, Ended, run_consumer-Ended}

-- A call of the set-up raises, the close does not, and nobody stops the consumer.
pub record Fails (config : RabbitMqConfig) (round : Round) : Type 0 where
  pub unset : round.is_set ≡ false
  pub raises : (make round.answers (set_up config)).1 ≡ false
  pub times_out : round.stops ≡ false
  pub closes : round.answers close_connection ≡ true

-- Every call of the set-up returns, and nobody stops the consumer.
pub record Succeeds (config : RabbitMqConfig) (round : Round) : Type 0 where
  pub unset : round.is_set ≡ false
  pub answered : AllAnswered round.answers (set_up config)
  pub waits : round.stops ≡ false

closing_answered :
    (answers : Answers) (connections : List Bool) (calls : List Call)
    → answers close_connection ≡ true
    → (close_newest answers connections calls).1 ≡ true
closing_answered answers [] calls h = refl
closing_answered answers (true ∷ older) calls h = refl
closing_answered answers (false ∷ older) calls h = h

leave_answered :
    (ending : Ending) (o : Consumer × Bool) → o.1 ≡ true → leave ending o ≡ (o.0, ending)
unfolding leave
leave_answered ending (s, true) h = refl
leave_answered ending (s, false) h = cc

failed_round :
    (round : Round) (s : Consumer) (fine : Bool)
    → fine ≡ false
    → round.stops ≡ false
    → round.answers close_connection ≡ true
    → after_attempt round (s, fine) ≡ ((close_open round.answers s).0, retrying)
unfolding after_attempt
failed_round round s true fails times_out closes = cc
failed_round round s false fails times_out closes = simp times_out (
    leave_answered retrying (close_open round.answers s)
      (closing_answered round.answers s.connections s.calls closes))

-- Rounds that fail change nothing but the state that the next one begins with.
skip_failing :
    (config : RabbitMqConfig) (failing more : List Round) (s : Consumer)
    → All (Fails config) failing
    → (t : Consumer) × (run_consumer config (failing ++ more) s ≡ run_consumer config more t)
unfolding run_consumer attempt
skip_failing config [] more s fails = (s, refl)
skip_failing config (bad ∷ failing) more s (f, fails) =
    let next = (close_open bad.answers (attempt config bad s).0).0 in
    let (t, same) = skip_failing config failing more next fails in
    let tried =
      failed_round bad (attempt config bad s).0 (make bad.answers (set_up config)).1 f.raises
        f.times_out f.closes in
    (t, simp (f.unset, tried) same)

-- The shutdown comes while the consumer runs, and close() of its connection raises.
pub record Breaks (config : RabbitMqConfig) (round : Round) : Type 0 where
  pub unset : round.is_set ≡ false
  pub answered : AllAnswered round.answers (set_up config)
  pub stops : round.stops ≡ true
  pub open_ : round.is_closed ≡ false
  pub breaks : round.answers close_connection ≡ false

leave_raised :
    (ending : Ending) (o : Consumer × Bool) → o.1 ≡ false → leave ending o ≡ (o.0, escaped)
unfolding leave
leave_raised ending (s, true) h = cc
leave_raised ending (s, false) h = refl

broken_round :
    (round : Round) (older : List Bool) (calls : List Call)
    → round.stops ≡ true
    → round.answers close_connection ≡ false
    → after_attempt round (record { connections = false ∷ older; calls = calls }, true)
      ≡ ((close_newest round.answers (false ∷ older) calls).0, escaped)
unfolding after_attempt
broken_round round older calls stops breaks =
    simp stops (leave_raised stopped (close_newest round.answers (false ∷ older) calls) breaks)

-- After any failing rounds, a connection whose close() raises at the shutdown ends the lifespan with
-- that exception, and the pool of the database stays open.
pub lifespan-escaped :
    (config : RabbitMqConfig) (failing : List Round) (round : Round) (more : List Round)
    → All (Fails config) failing
    → Breaks config round
    → ((lifespan config (failing ++ round ∷ more)).ending ≡ escaped)
      × ((lifespan config (failing ++ round ∷ more)).pool_closed ≡ false)
unfolding run_consumer attempt lifespan
lifespan-escaped config failing round more fails h =
    let (t, same) = skip_failing config failing (round ∷ more) new_consumer fails in
    let fine = make-AllAnswered round.answers (set_up config) h.answered in
    let tried : attempt config round t
        ≡ (record { connections = false ∷ t.connections; calls = t.calls ++ set_up config }, true) =
      simp (fine, h.answered.0, h.open_) refl in
    let ended : (run_consumer config (failing ++ round ∷ more) new_consumer).1 ≡ escaped =
      ap (λ o. o.1) same
      ∙ simp
          (
            h.unset,
            tried,
            broken_round round t.connections (t.calls ++ set_up config) h.stops h.breaks,
          )
          refl in
    (ended, ap is_stopped ended)

stopped-IsClosed :
    (config : RabbitMqConfig) (s : Consumer) (ending : Ending)
    → Ended config s.connections s.calls ending
    → is_stopped ending ≡ true
    → IsClosed s.connections
stopped-IsClosed config s stopped h is = h
stopped-IsClosed config s escaped h is = cc
stopped-IsClosed config s consuming h is = cc
stopped-IsClosed config s retrying h is = cc

-- The pool is closed only when no connection of the consumer is open.
pub lifespan-IsClosed :
    (config : RabbitMqConfig) (rounds : List Round)
    → (lifespan config rounds).pool_closed ≡ true
    → IsClosed (lifespan config rounds).consumer.connections
unfolding lifespan
lifespan-IsClosed config rounds h =
    let end = run_consumer config rounds new_consumer in
    stopped-IsClosed config end.0 end.1 (run_consumer-Ended config rounds new_consumer tt) h

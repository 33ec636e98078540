-- ===== src/Backend/Embedded/Plain.antt =====
-- `main` of backend/consumer.py, the consumer without an API: one set-up that is not tried again.
use rtls_stream_visualizer.Base.{
  arith, ◌≡◌, refl, Bool, true, false, inl, inr, Bool-cases, List, [], ◌∷◌, ◌++◌, if◌then◌else◌,
}
use rtls_stream_visualizer.Core.Config.Types.{RabbitMqConfig}
use rtls_stream_visualizer.Core.Broker.Calls.{Call, connect, close_connection, Answers, make}
use rtls_stream_visualizer.Backend.Embedded.{
  set_up, Round, Consumer, Ending, stopped, escaped, consuming, retrying, attempt, leave,
  after_attempt, go_on, run_consumer, new_consumer,
}

pub data MainEnd : Type 0 where
  -- The connection and the pool are closed.
  shut_down : MainEnd
  raised : MainEnd
  waiting : MainEnd

-- The end of `async with connection`, which closes it.
abbrev exit : Answers → List Call → MainEnd → List Call × MainEnd
exit answers calls end =
    (calls ++ close_connection ∷ [], if answers close_connection then end else raised)

-- Within `async with connection`: the rest of the set-up, and the wait for a signal.
unfoldable pub inside : Round → List Call × Bool → List Call × MainEnd
inside round (made, true) =
    if round.stops then exit round.answers made shut_down else (made, waiting)
inside round (made, false) = exit round.answers made raised

-- The calls of the broker that it makes, and how it ends.
unfoldable pub main : RabbitMqConfig → Round → List Call × MainEnd
unfolding inside
main config round =
    let (made, fine) = make round.answers (set_up config) in
    if round.answers (connect config.url) then inside round (made, fine) else (made, raised)

-- How `main` ends where one round of the embedded consumer ends so; without a set-up it has raised.
abbrev pub end_of : Bool → Ending → MainEnd
end_of false ending = raised
end_of true stopped = shut_down
end_of true escaped = raised
end_of true consuming = waiting
end_of true retrying = raised

abbrev tried : Round → List Call → Bool → Bool → Consumer × Bool
tried round made connected fine =
    (record { connections = if connected then round.is_closed ∷ [] else []; calls = made }, fine)

abbrev one_round : Consumer × Ending → Consumer × Ending
one_round end = go_on end (end.0, retrying)

main_after :
    (round : Round) (made : List Call) (connected fine : Bool)
    → round.is_closed ≡ false
    → (connected ≡ false → fine ≡ false)
    → (if connected then inside round (made, fine) else (made, raised)) ≡ (
      (one_round (after_attempt round (tried round made connected fine))).0.calls,
      end_of fine (one_round (after_attempt round (tried round made connected fine))).1,
    )
unfolding inside after_attempt leave
main_after round made false true open_ no_link = cc (no_link refl)
main_after round made false false open_ no_link = ground arith
main_after round made true true open_ no_link = elim (Bool-cases (round.answers close_connection)) [
  | inl yes_ ↦ simp (open_, yes_) (ground arith)
  | inr no_ ↦ simp (open_, no_) (ground arith)
]
main_after round made true false open_ no_link =
    elim (Bool-cases (round.answers close_connection)) [
      | inl yes_ ↦ simp (open_, yes_) (ground arith)
      | inr no_ ↦ simp (open_, no_) (ground arith)
    ]

no_link :
    (config : RabbitMqConfig) (answers : Answers)
    → answers (connect config.url) ≡ false
    → (make answers (set_up config)).1 ≡ false
unfolding make
no_link config answers h = simp h refl

-- `main` makes the calls of one round of the embedded consumer, in order, and ends as that does,
-- except that a set-up that fails ends it with the exception: it shuts down with its pool closed
-- exactly where that round is set up, stopped and closed.
pub main-run_consumer :
    (config : RabbitMqConfig) (round : Round)
    → round.is_set ≡ false
    → round.is_closed ≡ false
    → main config round ≡ (
      (run_consumer config (round ∷ []) new_consumer).0.calls,
      end_of
          (make round.answers (set_up config)).1
          (run_consumer config (round ∷ []) new_consumer).1,
    )
unfolding main run_consumer attempt
main-run_consumer config round unset open_ =
    let (made, fine) = make round.answers (set_up config) in
    simp unset (
      main_after round made (round.answers (connect config.url)) fine open_
        (no_link config round.answers))

-- ===== src/Backend/Embedded/Rounds.antt =====
-- The connections of the embedded consumer, over any rounds.
use rtls_stream_visualizer.Base.{
  ◌≡◌, refl, ap, inl, inr, Bool, true, false, Bool-cases, List, [], ◌∷◌, ◌++◌, All,
}
use rtls_stream_visualizer.Core.Config.Types.{RabbitMqConfig}
use rtls_stream_visualizer.Core.Broker.Calls.{Call, connect, close_connection, Answers, make-made}
use rtls_stream_visualizer.Backend.Embedded.{
  set_up, Round, Consumer, Ending, stopped, escaped, consuming, retrying, attempt, close_newest,
  close_open, leave, after_attempt, go_on, run_consumer,
}

abbrev pub IsClosed : List Bool → Type 0
IsClosed connections = All (λ closed. closed ≡ true) connections

-- All but the newest are closed.
abbrev pub OlderClosed : List Bool → Type 0
OlderClosed [] = Unit
OlderClosed (closed ∷ older) = IsClosed older

-- What is left at an end: nothing is open, or the newest connection at most, which the `finally`
-- failed to close or which is in use.
abbrev pub Ended : RabbitMqConfig → List Bool → List Call → Ending → Type 0
Ended config connections calls stopped = IsClosed connections
Ended config connections calls retrying = IsClosed connections
Ended config connections calls escaped = OlderClosed connections
Ended config connections calls consuming =
    OlderClosed connections × ((before : List Call) × (calls ≡ before ++ set_up config))

abbrev EndedIn : RabbitMqConfig → Consumer × Ending → Type 0
EndedIn config (s, ending) = Ended config s.connections s.calls ending

IsClosed-OlderClosed : (connections : List Bool) → IsClosed connections → OlderClosed connections
IsClosed-OlderClosed [] h = tt
IsClosed-OlderClosed (closed ∷ older) (h, hs) = hs

attempt-OlderClosed :
    (config : RabbitMqConfig) (round : Round) (s : Consumer)
    → IsClosed s.connections
    → OlderClosed (attempt config round s).0.connections
unfolding attempt
attempt-OlderClosed config round s h = elim (Bool-cases (round.answers (connect config.url))) [
  | inl yes_ ↦ simp yes_ h
  | inr no_ ↦ simp no_ (IsClosed-OlderClosed s.connections h)
]

-- What a `finally` leaves: nothing open, if it returned.
abbrev Closes : Consumer × Bool → Type 0
Closes (s, true) = IsClosed s.connections
Closes (s, false) = OlderClosed s.connections

close_first :
    (answered : Bool) (older : List Bool) (calls : List Call)
    → IsClosed older
    → Closes (record { connections = answered ∷ older; calls = calls }, answered)
close_first true older calls h = (refl, h)
close_first false older calls h = h

close_newest-Closes :
    (answers : Answers) (connections : List Bool) (calls : List Call)
    → OlderClosed connections
    → Closes (close_newest answers connections calls)
close_newest-Closes answers [] calls h = tt
close_newest-Closes answers (true ∷ older) calls h = (refl, h)
close_newest-Closes answers (false ∷ older) calls h =
    close_first (answers close_connection) older (calls ++ close_connection ∷ []) h

leave-stopped :
    (config : RabbitMqConfig) (o : Consumer × Bool) → Closes o → EndedIn config (leave stopped o)
unfolding leave
leave-stopped config (s, true) h = h
leave-stopped config (s, false) h = h

leave-retrying :
    (config : RabbitMqConfig) (o : Consumer × Bool) → Closes o → EndedIn config (leave retrying o)
unfolding leave
leave-retrying config (s, true) h = h
leave-retrying config (s, false) h = h

-- The way out of a round, whatever its body did.
after_attempt-Ended :
    (config : RabbitMqConfig) (round : Round) (s : Consumer) (fine : Bool)
    → OlderClosed s.connections
    → (fine ≡ true → (before : List Call) × (s.calls ≡ before ++ set_up config))
    → EndedIn config (after_attempt round (s, fine))
unfolding after_attempt
after_attempt-Ended config round s true h done =
    let closes = close_newest-Closes round.answers s.connections s.calls h in
    elim (Bool-cases round.stops) [
      | inl yes_ ↦ simp yes_ (leave-stopped config (close_open round.answers s) closes)
      | inr no_ ↦ simp no_ (h, done refl)
    ]
after_attempt-Ended config round s false h done =
    let closes = close_newest-Closes round.answers s.connections s.calls h in
    elim (Bool-cases round.stops) [
      | inl yes_ ↦ simp yes_ (leave-stopped config (close_open round.answers s) closes)
      | inr no_ ↦ simp no_ (leave-retrying config (close_open round.answers s) closes)
    ]

attempt-calls :
    (config : RabbitMqConfig) (round : Round) (s : Consumer)
    → (attempt config round s).1 ≡ true
    → (before : List Call) × ((attempt config round s).0.calls ≡ before ++ set_up config)
unfolding attempt
attempt-calls config round s fine =
    (s.calls, ap (λ l. s.calls ++ l) (make-made round.answers (set_up config) fine).0)

go_on-Ended :
    (config : RabbitMqConfig) (end rest : Consumer × Ending)
    → EndedIn config end
    → (IsClosed end.0.connections → EndedIn config rest)
    → EndedIn config (go_on end rest)
go_on-Ended config (s, stopped) rest h more = h
go_on-Ended config (s, escaped) rest h more = h
go_on-Ended config (s, consuming) rest h more = h
go_on-Ended config (s, retrying) rest h more = more h

-- Whatever the broker answers and whenever the stop event is set: no connection is left open when
-- the loop stops or tries again; while it consumes, only the newest is open, and the whole set-up
-- was made on it in order; and only the newest can be left open where close() raised.
pub run_consumer-Ended :
    (config : RabbitMqConfig) (rounds : List Round) (s : Consumer)
    → IsClosed s.connections
    → Ended config
        (run_consumer config rounds s).0.connections
        (run_consumer config rounds s).0.calls
        (run_consumer config rounds s).1
unfolding run_consumer
run_consumer-Ended config [] s h = h
run_consumer-Ended config (round ∷ rounds) s h =
    let tried = attempt config round s in
    let end = after_attempt round tried in
    let here =
      after_attempt-Ended config round tried.0 tried.1 (attempt-OlderClosed config round s h)
        (attempt-calls config round s) in
    elim (Bool-cases round.is_set) [
      | inl yes_ ↦ simp yes_ h
      | inr no_ ↦ simp no_ (
          go_on-Ended config end (run_consumer config rounds end.0) here
            (run_consumer-Ended config rounds end.0))
    ]

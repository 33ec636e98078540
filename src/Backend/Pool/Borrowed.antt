-- ===== src/Backend/Pool/Borrowed.antt =====
-- Connections are given back, and there are enough of them for the consumer.
use mathlib.Core.Logic.{◌↔◌}
use rtls_stream_visualizer.Base.{
  ℕ, ◌+◌, ◌-◌, ◌≤◌, ◌<◌, ◌≡◌, refl, ap, ◌∙◌, true, false, Bool-cases, inl, inr, Option, some, List,
  [], ◌∷◌, ltb, ltb→lt, keep, length, arith,
}
use rtls_stream_visualizer.Base.Raise.{Exc, ok, raise, db_error}
use rtls_stream_visualizer.Python.Runtime.{Runtime}
use rtls_stream_visualizer.Backend.Consumer.{World}
use rtls_stream_visualizer.Backend.Flight.{Phase, in_transaction, System, Steps, start}
use rtls_stream_visualizer.Backend.Flight.Sound.{Steps-IsSound}
use rtls_stream_visualizer.Backend.Health.Status.{build_health_response-status_code}
use rtls_stream_visualizer.Backend.Pool.{
  max_pool_size, ConnectionPool, give_back, get_connection, health_check,
}

-- A block that leaves as many connections borrowed as it finds.
abbrev pub Restores : {A : Type 0} → (ConnectionPool → Exc A × ConnectionPool) → Type 0
Restores block = (p : ConnectionPool) → (block p).1 ≡ p

restored : (pool : ConnectionPool) → (record pool { borrowed = pool.borrowed + 1 - 1 }) ≡ pool
restored pool = ap (λ n. record pool { borrowed = n }) (omega arith)

get_connection-run :
    {A : Type 0} (block : ConnectionPool → Exc A × ConnectionPool) (pool : ConnectionPool)
    → ltb pool.borrowed pool.max_size ≡ true
    → get_connection false block pool
      ≡ give_back (block (record pool { borrowed = pool.borrowed + 1 }))
unfolding get_connection
get_connection-run block pool room = ground (arith, room)

get_connection-full :
    {A : Type 0} (block : ConnectionPool → Exc A × ConnectionPool) (pool : ConnectionPool)
    → ltb pool.borrowed pool.max_size ≡ false
    → get_connection false block pool ≡ (raise db_error, pool)
unfolding get_connection
get_connection-full block pool full = ground (arith, full)

-- A connection is given back, whether the block returns, raises or never gets one.
pub get_connection-Restores :
    {A : Type 0} (block : ConnectionPool → Exc A × ConnectionPool) (pool : ConnectionPool)
    → Restores block
    → (get_connection false block pool).1 ≡ pool
get_connection-Restores block pool h = elim (Bool-cases (ltb pool.borrowed pool.max_size)) [
  | inl room ↦
      ap (λ o. o.1) (get_connection-run block pool room)
      ∙ ap (λ (p : ConnectionPool). record p { borrowed = p.borrowed - 1 })
          (h (record pool { borrowed = pool.borrowed + 1 }))
      ∙ restored pool
  | inr full ↦ ap (λ o. o.1) (get_connection-full block pool full)
]

-- Where no other connection is given back while the health check waits for one: it answers 200
-- exactly when the pool has a connection left and the query gives the one row that holds 1, and it
-- leaves the pool as it was, whatever it answers.
pub health_check-status_code :
    (query : Exc (Option (List ℕ))) (pool : ConnectionPool)
    → (((health_check false query pool).0.status_code ≡ 200)
        ↔ ((pool.borrowed < pool.max_size) × (query ≡ ok (some (1 ∷ [])))))
      × ((health_check false query pool).1 ≡ pool)
unfolding health_check
health_check-status_code query pool = (
  elim (Bool-cases (ltb pool.borrowed pool.max_size)) [
    | inl room ↦
        let status = build_health_response-status_code query in
        rw (get_connection-run (λ p. (query, p)) pool room)
          (λ h. (ltb→lt pool.borrowed pool.max_size room, status.0 h), λ h. status.1 h.1)
    | inr full ↦ rw (get_connection-full (λ p. (query, p)) pool full) (
      λ h. let ne = (build_health_response-status_code (raise db_error)).0 h in cc,
      λ h. absurd (ground (arith, h.0, full)),
    )
  ],
  get_connection-Restores (λ p. (query, p)) pool (λ p. refl),
)

-- The handlers that are in a transaction, each with a connection of its own.
abbrev pub open_transactions : {F : Type 0} → List (Phase F) → ℕ
open_transactions flight = length (keep in_transaction flight)

open_transactions-le-length :
    {F : Type 0} (flight : List (Phase F)) → open_transactions flight ≤ length flight
open_transactions-le-length [] = omega arith
open_transactions-le-length (p ∷ flight) = ground (arith, open_transactions-le-length flight)

-- Whatever the handlers do, their open transactions take no more than half of the connections of the
-- pool, so that writing never waits for a connection while no more than ten others are borrowed.
pub Steps-open_transactions :
    (R : Runtime) (w : World R.Float) (s : System R.Float) (pool : ConnectionPool) (others : ℕ)
    → Steps R (start w) s
    → pool.max_size ≡ max_pool_size
    → pool.borrowed ≡ open_transactions s.flight + others
    → others < 10
    → pool.borrowed < pool.max_size
Steps-open_transactions R w s pool others steps size borrowed few =
    let sound = Steps-IsSound R w s steps in
    omega (arith, sound.few, open_transactions-le-length s.flight, size, borrowed, few)

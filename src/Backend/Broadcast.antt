-- ===== src/Backend/Broadcast.antt =====
-- backend/broadcast.py: the subscribers' bounded queues. A queue is named by a number, as an object
-- is by its identity; the program never relies on the order in which a set is gone through.
pub mod Queues
pub mod Delivery
use rtls_stream_visualizer.Base.{
  ℕ, suc, ◌+◌, Bool, true, false, ◌&&◌, Option, none, some, List, [], ◌∷◌, ◌++◌, if◌then◌else◌, ltb,
  leb, eqb, length, keep, map, not,
}

-- An `asyncio.Queue(maxsize)`, oldest message first.
pub record Queue (E : Type 0) : Type 0 where
  pub key : ℕ
  pub items : List E

pub record Broadcast (E : Type 0) : Type 0 where
  pub maxsize : ℕ
  -- How many queues have been made.
  pub made : ℕ
  pub subscribers : List (Queue E)

module _ {E : Type 0} where
  -- Broadcast(maxsize)
  unfoldable pub new_broadcast : ℕ → Broadcast E
  new_broadcast maxsize = record { maxsize = maxsize; made = 0; subscribers = [] }

  -- The new queue's key, and the broadcast that has it.
  unfoldable pub subscribe : Broadcast E → ℕ × Broadcast E
  subscribe b = (
    b.made,
    record b {
      made = b.made + 1;
      subscribers = record { key = b.made; items = [] } ∷ b.subscribers;
    },
  )

  -- `discard` of a queue that is not there changes nothing.
  unfoldable pub unsubscribe : Broadcast E → ℕ → Broadcast E
  unsubscribe b key = record b { subscribers = keep (λ q. not (eqb q.key key)) b.subscribers }

  -- `Queue.full`: a queue of size 0 has no bound.
  unfoldable pub full : ℕ → Queue E → Bool
  full maxsize q = ltb 0 maxsize && leb maxsize (length q.items)

  -- `put_nowait`, or the message is dropped.
  unfoldable pub offer : ℕ → E → Queue E → Queue E
  unfolding full
  offer maxsize envelope q =
      if full maxsize q then q else record q { items = q.items ++ envelope ∷ [] }

  unfoldable pub publish : Broadcast E → E → Broadcast E
  publish b envelope = record b { subscribers = map (offer b.maxsize envelope) b.subscribers }

  unfoldable pub subscriber_count : Broadcast E → ℕ
  subscriber_count b = length b.subscribers

  -- `await queue.get()` of a client: the oldest message, none while the queue is empty.
  take_front : ℕ → List (Queue E) → Option E × List (Queue E)
  take_front key [] = (none, [])
  take_front key (q ∷ qs) =
      let (found, rest) = take_front key qs in
      if eqb q.key key
      then (elim q.items [ [] ↦ (none, q ∷ qs) | e ∷ es ↦ (some e, record q { items = es } ∷ qs) ])
      else (found, q ∷ rest)

  unfoldable pub take_next : Broadcast E → ℕ → Option E × Broadcast E
  unfolding take_front
  take_next b key =
      let (found, rest) = take_front key b.subscribers in (found, record b { subscribers = rest })

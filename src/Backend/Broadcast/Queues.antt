-- ===== src/Backend/Broadcast/Queues.antt =====
-- Bounds and keys of the subscribers' queues.
use rtls_stream_visualizer.Base.{
  ℕ, ◌+◌, ◌<◌, ◌≡◌, ◌≢◌, refl, Bool, false, ◌&&◌, List, [], ◌∷◌, map, ltb, length, length-append,
  keep, All, arith,
}
use rtls_stream_visualizer.Backend.Broadcast.{
  Queue, Broadcast, new_broadcast, subscribe, unsubscribe, offer, publish, take_front, take_next,
}

module _ {E : Type 0} where
  -- No queue is longer than its bound.
  abbrev pub Fits : ℕ → Queue E → Type 0
  Fits maxsize q = (ltb 0 maxsize && ltb maxsize (length q.items)) ≡ false

  -- The keys are of queues that were made, and no two queues have the same.
  abbrev pub Made : ℕ → List (Queue E) → Type 0
  Made made [] = Unit
  Made made (q ∷ qs) = (q.key < made) × All (λ r. r.key ≢ q.key) qs × Made made qs

  pub record IsValid (b : Broadcast E) : Type 0 where
    pub fits : All (Fits b.maxsize) b.subscribers
    pub keys : Made b.made b.subscribers

  Made-suc : (n : ℕ) (qs : List (Queue E)) → Made n qs → Made (n + 1) qs
  Made-suc n [] h = tt
  Made-suc n (q ∷ qs) (lt, apart, h) = (omega arith, apart, Made-suc n qs h)

  pub Made-apart : (n : ℕ) (qs : List (Queue E)) → Made n qs → All (λ r. r.key ≢ n) qs
  Made-apart n [] h = tt
  Made-apart n (q ∷ qs) (lt, apart, h) = (omega arith, Made-apart n qs h)

  pub subscribe-IsValid : (b : Broadcast E) → IsValid b → IsValid (subscribe b).1
  unfolding subscribe
  subscribe-IsValid b h = record {
    fits = (ground arith, h.fits);
    keys =
        (omega arith, Made-apart b.made b.subscribers h.keys, Made-suc b.made b.subscribers h.keys);
  }

  offer-Fits : (n : ℕ) (e : E) (q : Queue E) → Fits n q → Fits n (offer n e q)
  unfolding offer
  offer-Fits n e q h = ground (arith, length-append q.items (e ∷ []))

  key-offer : (n : ℕ) (e : E) (q : Queue E) → (offer n e q).key ≡ q.key
  unfolding offer
  key-offer n e q = ground arith

  All-Fits-offer :
      (n : ℕ) (e : E) (qs : List (Queue E)) → All (Fits n) qs → All (Fits n) (map (offer n e) qs)
  All-Fits-offer n e [] h = tt
  All-Fits-offer n e (q ∷ qs) (p, h) = (offer-Fits n e q p, All-Fits-offer n e qs h)

  All-apart-offer :
      (n k : ℕ) (e : E) (qs : List (Queue E))
      → All (λ r. r.key ≢ k) qs
      → All (λ r. r.key ≢ k) (map (offer n e) qs)
  All-apart-offer n k e [] h = tt
  All-apart-offer n k e (q ∷ qs) (p, h) = (rw key-offer p, All-apart-offer n k e qs h)

  Made-offer : (m n : ℕ) (e : E) (qs : List (Queue E)) → Made m qs → Made m (map (offer n e) qs)
  Made-offer m n e [] h = tt
  Made-offer m n e (q ∷ qs) (lt, apart, h) =
      (rw key-offer lt, rw key-offer (All-apart-offer n q.key e qs apart), Made-offer m n e qs h)

  pub publish-IsValid : (b : Broadcast E) (e : E) → IsValid b → IsValid (publish b e)
  unfolding publish
  publish-IsValid b e h = record {
    fits = All-Fits-offer b.maxsize e b.subscribers h.fits;
    keys = Made-offer b.made b.maxsize e b.subscribers h.keys;
  }

  All-keep {ℓ} :
      (P : Queue E → Type ℓ) (p : Queue E → Bool) (qs : List (Queue E))
      → All P qs
      → All P (keep p qs)
  All-keep P p [] h = tt
  All-keep P p (q ∷ qs) (a, h) = ground (arith, All-keep P p qs h)

  Made-keep : (n : ℕ) (p : Queue E → Bool) (qs : List (Queue E)) → Made n qs → Made n (keep p qs)
  Made-keep n p [] h = tt
  Made-keep n p (q ∷ qs) (lt, apart, h) =
      ground (arith, Made-keep n p qs h, All-keep (λ r. r.key ≢ q.key) p qs apart)

  pub unsubscribe-IsValid : (b : Broadcast E) (k : ℕ) → IsValid b → IsValid (unsubscribe b k)
  unfolding unsubscribe
  unsubscribe-IsValid b k h = record {
    fits = All-keep (Fits b.maxsize) _ b.subscribers h.fits;
    keys = Made-keep b.made _ b.subscribers h.keys;
  }

  take_front-Fits :
      (n k : ℕ) (qs : List (Queue E)) → All (Fits n) qs → All (Fits n) (take_front k qs).1
  unfolding take_front
  take_front-Fits n k [] h = tt
  take_front-Fits n k (q ∷ qs) (p, h) = ground (arith, take_front-Fits n k qs h)

  take_front-apart :
      (k j : ℕ) (qs : List (Queue E))
      → All (λ r. r.key ≢ j) qs
      → All (λ r. r.key ≢ j) (take_front k qs).1
  unfolding take_front
  take_front-apart k j [] h = tt
  take_front-apart k j (q ∷ qs) (p, h) = ground (arith, take_front-apart k j qs h)

  take_front-Made : (n k : ℕ) (qs : List (Queue E)) → Made n qs → Made n (take_front k qs).1
  unfolding take_front
  take_front-Made n k [] h = tt
  take_front-Made n k (q ∷ qs) (lt, apart, h) =
      ground (arith, take_front-Made n k qs h, take_front-apart k q.key qs apart)

  pub take_next-IsValid : (b : Broadcast E) (k : ℕ) → IsValid b → IsValid (take_next b k).1
  unfolding take_next
  take_next-IsValid b k h = record {
    fits = take_front-Fits b.maxsize k b.subscribers h.fits;
    keys = take_front-Made b.made k b.subscribers h.keys;
  }

module _ {E : Type 0} where
  length-take_front : (k : ℕ) (qs : List (Queue E)) → length (take_front k qs).1 ≡ length qs
  unfolding take_front
  length-take_front k [] = refl
  length-take_front k (q ∷ qs) = ground (arith, length-take_front k qs)

  pub length-take_next :
      (b : Broadcast E) (k : ℕ) → length (take_next b k).1.subscribers ≡ length b.subscribers
  unfolding take_next
  length-take_next b k = length-take_front k b.subscribers

-- The operations that the tasks of the event loop interleave.
pub data Op (E : Type 0) : Type 0 where
  join : Op E
  leave next : ℕ → Op E
  send : E → Op E

module _ {E : Type 0} where
  abbrev pub run : Op E → Broadcast E → Broadcast E
  run join b = (subscribe b).1
  run (leave key) b = unsubscribe b key
  run (next key) b = (take_next b key).1
  run (send envelope) b = publish b envelope

  unfoldable pub run_all : List (Op E) → Broadcast E → Broadcast E
  run_all [] b = b
  run_all (op ∷ ops) b = run_all ops (run op b)

  run-IsValid : (op : Op E) (b : Broadcast E) → IsValid b → IsValid (run op b)
  run-IsValid join b h = subscribe-IsValid b h
  run-IsValid (leave key) b h = unsubscribe-IsValid b key h
  run-IsValid (next key) b h = take_next-IsValid b key h
  run-IsValid (send envelope) b h = publish-IsValid b envelope h

  run_all-IsValid : (ops : List (Op E)) (b : Broadcast E) → IsValid b → IsValid (run_all ops b)
  unfolding run_all
  run_all-IsValid [] b h = h
  run_all-IsValid (op ∷ ops) b h = run_all-IsValid ops (run op b) (run-IsValid op b h)

  -- In every interleaving of joins, leaves, reads and publications from a new broadcast, no queue
  -- is longer than its bound (0 being none), and no two subscribers share a queue.
  pub reachable-IsValid :
      (maxsize : ℕ) (ops : List (Op E)) → IsValid (run_all ops (new_broadcast maxsize))
  unfolding new_broadcast
  reachable-IsValid maxsize ops =
      run_all-IsValid ops (new_broadcast maxsize) (record { fits = tt; keys = tt })

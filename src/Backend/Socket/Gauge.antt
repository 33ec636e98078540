-- ===== src/Backend/Socket/Gauge.antt =====
-- The gauge of connections against the subscribers, whatever the connections do in turn.
use rtls_stream_visualizer.Base.{
  ℕ, suc, ◌≡◌, ◌≢◌, refl, sym, ap, ◌∙◌, subst, inl, inr, Bool-cases, eqb_iff, Bool, true, false,
  not, ◌||◌, List, [], ◌∷◌, map, All, keep, length, eqb, arith,
}
use rtls_stream_visualizer.Backend.Broadcast.{
  Queue, new_broadcast, subscribe, unsubscribe, publish, offer, subscriber_count, take_next,
}
use rtls_stream_visualizer.Backend.Broadcast.Queues.{
  IsValid, Made, subscribe-IsValid, unsubscribe-IsValid, publish-IsValid, take_next-IsValid,
  length-take_next,
}
use rtls_stream_visualizer.Backend.Socket.{Hub, open_socket, close_socket}

length-map {ℓ} : {A B : Type ℓ} (f : A → B) (xs : List A) → length (map f xs) ≡ length xs
length-map f [] = refl
length-map f (x ∷ xs) = ap suc (length-map f xs)

module _ {E : Type 0} where
  -- A subscriber has this queue.
  abbrev pub is_subscribed : ℕ → List (Queue E) → Bool
  is_subscribed key [] = false
  is_subscribed key (q ∷ qs) = eqb q.key key || is_subscribed key qs

  -- A connection opens, a connection that is open closes, one takes an envelope, or a handler
  -- broadcasts one.
  pub data Move (hub : Hub E) : Hub E → Type 0 where
    opens : Move hub (open_socket hub).1
    closes :
        (key : ℕ)
        → is_subscribed key hub.broadcast.subscribers ≡ true
        → Move hub (close_socket key hub)
    takes : (key : ℕ) → Move hub (record hub { broadcast = (take_next hub.broadcast key).1 })
    broadcasts : (e : E) → Move hub (record hub { broadcast = publish hub.broadcast e })

  pub data Moves (hub : Hub E) : Hub E → Type 0 where
    stay : Moves hub hub
    go : {mid after : Hub E} → Moves hub mid → Move mid after → Moves hub after

  length-keep_absent :
      (key : ℕ) (qs : List (Queue E))
      → All (λ q. q.key ≢ key) qs
      → length (keep (λ q. not (eqb q.key key)) qs) ≡ length qs
  length-keep_absent key [] h = refl
  length-keep_absent key (q ∷ qs) (p, h) = ground (arith, length-keep_absent key qs h)

  in_tail :
      (key : ℕ) (q : Queue E) (qs : List (Queue E))
      → eqb q.key key ≡ false
      → is_subscribed key (q ∷ qs) ≡ true
      → is_subscribed key qs ≡ true
  in_tail key q qs other own = ground (arith, other, own)

  length-keep_own :
      (n key : ℕ) (qs : List (Queue E))
      → Made n qs
      → is_subscribed key qs ≡ true
      → suc (length (keep (λ q. not (eqb q.key key)) qs)) ≡ length qs
  length-keep_own n key [] h own = cc
  length-keep_own n key (q ∷ qs) (lt, apart, h) own = elim (Bool-cases (eqb q.key key)) [
    | inl same ↦
        let absent = subst (λ k. All (λ r. r.key ≢ k) qs) ((eqb_iff q.key key).0 same) apart in
        ground (arith, length-keep_absent key qs absent)
    | inr other ↦ ground (arith, length-keep_own n key qs h (in_tail key q qs other own))
  ]

  -- The gauge shows the number of subscribers, whose queues are valid.
  pub record IsCounted (hub : Hub E) : Type 0 where
    pub valid : IsValid hub.broadcast
    pub counted : hub.connections ≡ subscriber_count hub.broadcast

  Move-IsCounted : (a b : Hub E) → Move a b → IsCounted a → IsCounted b
  unfolding open_socket close_socket subscriber_count subscribe unsubscribe publish
  Move-IsCounted a b opens h = record {
    valid = subscribe-IsValid a.broadcast h.valid;
    counted = omega (arith, h.counted);
  }
  Move-IsCounted a b (closes key own) h = record {
    valid = unsubscribe-IsValid a.broadcast key h.valid;
    counted = omega (
      arith,
      h.counted,
      length-keep_own a.broadcast.made key a.broadcast.subscribers h.valid.keys own,
    );
  }
  Move-IsCounted a b (takes key) h = record {
    valid = take_next-IsValid a.broadcast key h.valid;
    counted = h.counted ∙ sym (length-take_next a.broadcast key);
  }
  Move-IsCounted a b (broadcasts e) h = record {
    valid = publish-IsValid a.broadcast e h.valid;
    counted = h.counted ∙ sym (length-map (offer a.broadcast.maxsize e) a.broadcast.subscribers);
  }

  -- From a new broadcast with the gauge at zero, in any interleaving of connections that open and, each
  -- once, close, of clients that take envelopes and of handlers that broadcast: the gauge shows
  -- exactly the number of subscribers, no queue is longer than its bound, and no two connections
  -- share a queue.
  pub Moves-IsCounted :
      (maxsize : ℕ) (hub : Hub E)
      → Moves (record { broadcast = new_broadcast maxsize; connections = 0 }) hub
      → IsCounted hub
  unfolding new_broadcast subscriber_count
  Moves-IsCounted maxsize hub stay = record {
    valid = record { fits = tt; keys = tt };
    counted = refl;
  }
  Moves-IsCounted maxsize hub (go {mid} moves move) =
      Move-IsCounted mid hub move (Moves-IsCounted maxsize mid moves)

-- ===== src/Backend/Socket/Lifetime.antt =====
-- A connection leaves nothing behind.
use rtls_stream_visualizer.Base.{
  ℕ, ◌+◌, ◌≡◌, ◌≢◌, refl, ap₂, not, List, [], ◌∷◌, keep, All, eqb, arith,
}
use rtls_stream_visualizer.Backend.Broadcast.{Queue, subscribe, unsubscribe}
use rtls_stream_visualizer.Backend.Broadcast.Queues.{IsValid, Made-apart}
use rtls_stream_visualizer.Backend.Socket.{Hub, open_socket, close_socket}

module _ {E : Type 0} where
  keep-others :
      (key : ℕ) (qs : List (Queue E))
      → All (λ q. q.key ≢ key) qs
      → keep (λ q. not (eqb q.key key)) qs ≡ qs
  keep-others key [] h = refl
  keep-others key (q ∷ qs) (p, h) = ground (arith, keep-others key qs h)

  keep-own :
      (key : ℕ) (qs : List (Queue E))
      → All (λ q. q.key ≢ key) qs
      → keep (λ q. not (eqb q.key key)) (record { key = key; items = [] } ∷ qs) ≡ qs
  keep-own key qs h = ground (arith, keep-others key qs h)

  -- Opening a socket and closing it leaves the subscribers and the gauge of connections as they were,
  -- if the queues have distinct keys.
  pub close_socket-open_socket :
      (hub : Hub E)
      → IsValid hub.broadcast
      → let (key, opened) = open_socket hub in
        close_socket key opened
        ≡ (record hub { broadcast = record hub.broadcast { made = hub.broadcast.made + 1 } })
  unfolding open_socket close_socket subscribe unsubscribe
  close_socket-open_socket hub h =
      ap₂
        (λ qs n. record {
          broadcast = record hub.broadcast { made = hub.broadcast.made + 1; subscribers = qs };
          connections = n;
        })
        (keep-own hub.broadcast.made hub.broadcast.subscribers
          (Made-apart hub.broadcast.made hub.broadcast.subscribers h.keys))
        (omega arith)

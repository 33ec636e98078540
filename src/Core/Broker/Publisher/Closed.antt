-- ===== src/Core/Broker/Publisher/Closed.antt =====
-- What reaches the exchange before the publisher is closed, and that nothing does after it.
use mathlib.Core.List.{append_assoc, append-nil}
use rtls_stream_visualizer.Base.{
  ◌+◌, ◌≡◌, refl, sym, ap, ap₂, ◌∙◌, true, false, inl, inr, Bool-cases, List, [], ◌∷◌, ◌++◌, map,
  keep, length, length-append, arith,
}
use rtls_stream_visualizer.Core.Config.Types.{RabbitMqConfig}
use rtls_stream_visualizer.Core.Broker.{AmqpMessage, amqp_message}
use rtls_stream_visualizer.Core.Broker.Calls.{
  close_channel, close_connection, Answers, AllAnswered, make-AllAnswered,
}
use rtls_stream_visualizer.Core.Broker.Publisher.{
  Publisher, Message, publish, close, Use, publishes, closes, use_once, use_all, blocked,
}

module _ (config : RabbitMqConfig) where
  -- The messages that the exchange takes, as it gets them.
  abbrev pub taken_of : List Message → List AmqpMessage
  taken_of ms =
      map (λ (m : Message). amqp_message config.routing_key m.topic m.body m.headers)
        (keep (λ (m : Message). m.taken) ms)

  abbrev with_taken : List AmqpMessage → Publisher → Publisher
  with_taken taken p = record p {
    delivered = p.delivered ++ taken;
    messages_total = p.messages_total + length taken;
  }

  use_all-append :
      (uses more : List Use) (p : Publisher)
      → use_all config (uses ++ more) p ≡ use_all config more (use_all config uses p)
  unfolding use_all
  use_all-append [] more p = refl
  use_all-append (u ∷ uses) more p = use_all-append uses more (use_once config u p).0

  with_taken-nil : (p : Publisher) → p ≡ with_taken [] p
  with_taken-nil p =
      ap₂ (λ d n. record p { delivered = d; messages_total = n }) (sym (append-nil p.delivered))
        (omega arith)

  with_taken-with_taken :
      (a b : List AmqpMessage) (p : Publisher)
      → with_taken b (with_taken a p) ≡ with_taken (a ++ b) p
  with_taken-with_taken a b p =
      ap₂ (λ d n. record p { delivered = d; messages_total = n }) (append_assoc p.delivered a b)
        (omega (arith, length-append a b))

  taken_of-cons :
      (m : Message) (ms : List Message) → taken_of (m ∷ []) ++ taken_of ms ≡ taken_of (m ∷ ms)
  taken_of-cons m ms = elim (Bool-cases m.taken) [
    | inl yes_ ↦ simp yes_ refl
    | inr no_ ↦ simp no_ refl
  ]

  publish_running :
      (m : Message) (p : Publisher)
      → p.is_running ≡ true
      → (publish config m p).0 ≡ with_taken (taken_of (m ∷ [])) p
  unfolding publish
  publish_running m p running = elim (Bool-cases m.taken) [
    | inl yes_ ↦ simp (running, yes_) refl
    | inr no_ ↦ rw (running, no_) (with_taken-nil (record p { is_running = true }))
  ]

  use_all-publishes :
      (ms : List Message) (p : Publisher)
      → p.is_running ≡ true
      → use_all config (map publishes ms) p ≡ with_taken (taken_of ms) p
  unfolding use_all
  use_all-publishes [] p running = with_taken-nil p
  use_all-publishes (m ∷ ms) p running =
      ap (use_all config (map publishes ms)) (publish_running m p running)
      ∙ use_all-publishes ms (with_taken (taken_of (m ∷ [])) p) running
      ∙ with_taken-with_taken (taken_of (m ∷ [])) (taken_of ms) p
      ∙ ap (λ taken. with_taken taken p) (taken_of-cons m ms)

  use_all-stopped :
      (uses : List Use) (p : Publisher) → p.is_running ≡ false → use_all config uses p ≡ p
  unfolding use_all publish close
  use_all-stopped [] p stopped = refl
  use_all-stopped (publishes m ∷ uses) p stopped = simp stopped (use_all-stopped uses p stopped)
  use_all-stopped (closes answers ∷ uses) p stopped = simp stopped (use_all-stopped uses p stopped)

  pub close_running :
      (answers : Answers) (p : Publisher)
      → p.is_running ≡ true
      → AllAnswered answers (close_channel ∷ close_connection ∷ [])
      → (close answers p).0
        ≡ record p { calls = p.calls ++ close_channel ∷ close_connection ∷ []; is_running = false }
  unfolding close
  close_running answers p running answered =
      rw (running, make-AllAnswered answers (close_channel ∷ close_connection ∷ []) answered) refl

  abbrev pub closed_after : List Message → Publisher → Publisher
  closed_after ms p = record {
    calls = p.calls ++ close_channel ∷ close_connection ∷ [];
    is_running = false;
    delivered = p.delivered ++ taken_of ms;
    messages_total = p.messages_total + length (taken_of ms);
  }

  publish_stopped :
      (m : Message) (p : Publisher) → p.is_running ≡ false → (publish config m p).1 ≡ blocked
  unfolding publish
  publish_stopped m p stopped = rw stopped refl

  -- Of messages that are published while the loop runs the exchange gets exactly those that it takes,
  -- in order, and these are counted; once the publisher is closed, no call of it changes anything,
  -- and a call of `publish` waits without end.
  pub use_all-closed :
      (ms : List Message) (answers : Answers) (uses : List Use) (p : Publisher)
      → p.is_running ≡ true
      → AllAnswered answers (close_channel ∷ close_connection ∷ [])
      → (use_all config (map publishes ms ++ closes answers ∷ uses) p ≡ closed_after ms p)
        × ((m : Message) → (publish config m (closed_after ms p)).1 ≡ blocked)
  unfolding use_all
  use_all-closed ms answers uses p running answered =
      let sent = with_taken (taken_of ms) p in
      (
        use_all-append (map publishes ms) (closes answers ∷ uses) p
            ∙ ap (use_all config (closes answers ∷ uses)) (use_all-publishes ms p running)
            ∙ ap (use_all config uses) (close_running answers sent running answered)
            ∙ use_all-stopped uses (closed_after ms p) refl,
        λ m. publish_stopped m (closed_after ms p) refl,
      )

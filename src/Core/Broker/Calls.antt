-- ===== src/Core/Broker/Calls.antt =====
-- Calls of aio_pika one after another, as the `try` bodies of backend/app.py and backend/consumer.py
-- and `_connect` of core/broker/rabbitmq.py make them: the first that raises ends the body.
use rtls_stream_visualizer.Base.{
  ℕ, String, ◌≡◌, refl, ap, ◌∙◌, Bool, true, false, List, [], ◌∷◌, All, if◌then◌else◌,
}

pub data Call : Type 0 where
  -- aio_pika.connect_robust
  connect : String → Call
  open_channel : Call
  set_qos : ℕ → Call
  -- aio_pika.ExchangeType, which refuses a name that it does not know
  exchange_type : String → Call
  declare_exchange : String → String → Call
  declare_queue : String → Call
  -- the queue, the exchange and the routing key
  bind : String → String → String → Call
  consume : String → Call
  close_channel : Call
  close_connection : Call

-- Which calls return.
abbrev pub Answers : Type 0
Answers = Call → Bool

-- The calls that are made, the one that raises included, and whether all returned.
unfoldable pub make : Answers → List Call → List Call × Bool
make answers [] = ([], true)
make answers (call ∷ calls) =
    let (made, fine) = make answers calls in
    if answers call then (call ∷ made, fine) else (call ∷ [], false)

abbrev pub AllAnswered : Answers → List Call → Type 0
AllAnswered answers calls = All (λ call. answers call ≡ true) calls

pub make-AllAnswered :
    (answers : Answers) (calls : List Call)
    → AllAnswered answers calls
    → make answers calls ≡ (calls, true)
unfolding make
make-AllAnswered answers [] h = refl
make-AllAnswered answers (call ∷ calls) (h, hs) = simp (h, make-AllAnswered answers calls hs) refl

abbrev first_made : Call → List Call × Bool → Bool → List Call × Bool
first_made call (made, fine) answered = if answered then (call ∷ made, fine) else (call ∷ [], false)

made_first :
    (call : Call) (made : List Call) (fine answered : Bool)
    → (first_made call (made, fine) answered).1 ≡ true
    → (answered ≡ true) × (fine ≡ true) × ((first_made call (made, fine) answered).0 ≡ call ∷ made)
made_first call made fine true h = (refl, h, refl)
made_first call made fine false h = cc

-- If all returned, all were made.
pub make-made :
    (answers : Answers) (calls : List Call)
    → (make answers calls).1 ≡ true
    → ((make answers calls).0 ≡ calls) × AllAnswered answers calls
unfolding make
make-made answers [] h = (refl, tt)
make-made answers (call ∷ calls) h =
    let (answered, fine, first) =
      made_first call (make answers calls).0 (make answers calls).1 (answers call) h in
    let (made, rest) = make-made answers calls fine in
    (first ∙ ap (◌∷◌ call) made, (answered, rest))

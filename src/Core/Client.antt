-- ===== src/Core/Client.antt =====
-- core/udp/client.py: objects sent in batches. What the socket does with a datagram is an argument,
-- by the number of those that were sent before it.
pub mod Batches
use rtls_stream_visualizer.Base.{
  ℕ, String, Bool, true, false, Option, none, some, List, [], ◌∷◌, ◌++◌, length, eqb, if◌then◌else◌,
}
use rtls_stream_visualizer.Base.Int.{ℤ, pos, ltbℤ}
use rtls_stream_visualizer.Base.Raise.{Exception, Exc, ok, raise, value_error}
use rtls_stream_visualizer.Python.Value.{Value}
use rtls_stream_visualizer.Python.Runtime.{Runtime}

-- What a client has done: the datagrams that went out, and the sleeps after its batches.
pub record Sent : Type 0 where
  pub datagrams : List String
  pub sleeps : List ℤ

-- The client, which sends all its datagrams to this address.
pub record UdpClient : Type 0 where
  pub ip : String
  pub port : ℤ
  -- Its socket is made and not closed.
  pub is_open : Bool

-- `__init__`, `close`, and the two ends of a `with`.
abbrev pub new_client : String → ℤ → UdpClient
new_client ip port = record { ip = ip; port = port; is_open = true }

abbrev pub close_client : UdpClient → UdpClient
close_client client = record client { is_open = false }

abbrev pub enter_client : UdpClient → UdpClient
enter_client client = client

-- Whatever was raised in between is raised on.
abbrev pub exit_client : UdpClient → UdpClient
exit_client client = close_client client

module _ {ℓ} {A : Type ℓ} where
  -- The last batch may be short.
  last_batch : List A → List (List A)
  last_batch [] = []
  last_batch (x ∷ xs) = (x ∷ xs) ∷ []

  -- `batched`, with the batch that is being filled.
  fill : ℕ → List A → List A → List (List A)
  unfolding last_batch
  fill n batch [] = last_batch batch
  fill n batch (x ∷ xs) =
      let full = fill n [] xs in
      let more = fill n (batch ++ x ∷ []) xs in
      if eqb (length (batch ++ x ∷ [])) n then (batch ++ x ∷ []) ∷ full else more

  unfoldable pub batched : ℕ → List A → List (List A)
  unfolding fill
  batched n xs = fill n [] xs

-- What follows, unless something was raised.
abbrev pub and_then : Exc (Unit {0}) × Sent → (Sent → Exc (Unit {0}) × Sent) → Exc (Unit {0}) × Sent
and_then (ok u, state) next = next state
and_then (raise e, state) next = (raise e, state)

module _ (R : Runtime) (sendto : ℕ → Option Exception) where
  send_batch : List (Value R.Float) → Sent → Exc (Unit {0}) × Sent
  send_batch [] state = (ok tt, state)
  send_batch (object ∷ batch) state = elim (sendto (length state.datagrams)) [
    | some e ↦ (raise e, state)
    | none ↦ send_batch batch (record state { datagrams = state.datagrams ++ R.dumps object ∷ [] })
  ]

  -- `sleep` refuses a negative time.
  pause : ℤ → Sent → Exc (Unit {0}) × Sent
  pause time state =
      if ltbℤ time (pos 0)
      then (raise value_error, state)
      else (ok tt, record state { sleeps = state.sleeps ++ time ∷ [] })

  send_batches : List (List (Value R.Float)) → ℤ → Sent → Exc (Unit {0}) × Sent
  unfolding send_batch pause
  send_batches [] time state = (ok tt, state)
  send_batches (batch ∷ batches) time state =
      and_then (send_batch batch state)
        λ sent. and_then (pause time sent) λ rested. send_batches batches time rested

  -- `UdpClient.send`; `batched` refuses a size below 1.
  unfoldable pub send : List (Value R.Float) → ℕ → ℤ → Sent → Exc (Unit {0}) × Sent
  unfolding send_batches
  send objects batch_size time state =
      if eqb batch_size 0
      then (raise value_error, state)
      else send_batches (batched batch_size objects) time state

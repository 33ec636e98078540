-- ===== src/Core/Client/Batches.antt =====
-- What the client sends.
use mathlib.Core.List.{append-nil, append_assoc, map-append}
use rtls_stream_visualizer.Base.{
  ℕ, ◌≤◌, ◌<◌, ◌≡◌, refl, sym, ap, ◌∙◌, subst, false, Bool-cases, inl, inr, Option-cases, Option,
  some, List, [], ◌∷◌, ◌++◌, map, length, length-append, eqb, arith,
}
use rtls_stream_visualizer.Base.Int.{ℤ, pos, ltbℤ}
use rtls_stream_visualizer.Base.Raise.{Exception, Exc, ok, raise}
use rtls_stream_visualizer.Python.Value.{Value}
use rtls_stream_visualizer.Python.Runtime.{Runtime}
use rtls_stream_visualizer.Core.Client.{
  Sent, last_batch, fill, batched, and_then, send_batch, pause, send_batches, send,
}

module _ {ℓ} {A : Type ℓ} where
  pub flatten : List (List A) → List A
  flatten [] = []
  flatten (xs ∷ xss) = xs ++ flatten xss

  -- Every batch is of the size, but the last one, which may be shorter and has an item.
  abbrev pub AreBatches : ℕ → List (List A) → Type 0
  AreBatches n [] = Unit
  AreBatches n (b ∷ []) = (1 ≤ length b) × (length b ≤ n)
  AreBatches n (b ∷ c ∷ bs) = (length b ≡ n) × AreBatches n (c ∷ bs)

  AreBatches-cons :
      (n : ℕ) (b : List A) (bs : List (List A))
      → 0 < n
      → length b ≡ n
      → AreBatches n bs
      → AreBatches n (b ∷ bs)
  AreBatches-cons n b [] above size h = (omega arith, omega arith)
  AreBatches-cons n b (c ∷ bs) above size h = (size, h)

  last_batch-AreBatches :
      (n : ℕ) (batch : List A) → length batch < n → AreBatches n (last_batch batch)
  unfolding last_batch
  last_batch-AreBatches n [] h = tt
  last_batch-AreBatches n (x ∷ xs) h = (omega arith, omega arith)

  fill-AreBatches : (n : ℕ) (batch xs : List A) → length batch < n → AreBatches n (fill n batch xs)
  unfolding fill
  fill-AreBatches n batch [] h = last_batch-AreBatches n batch h
  fill-AreBatches n batch (x ∷ xs) h = elim (Bool-cases (eqb (length (batch ++ x ∷ [])) n)) [
    | inl size ↦ simp size (
        AreBatches-cons n (batch ++ x ∷ []) (fill n [] xs) (omega arith) (ground arith)
          (fill-AreBatches n [] xs (omega arith)))
    | inr other ↦
        simp other
          (fill-AreBatches n (batch ++ x ∷ []) xs (ground (arith, length-append batch (x ∷ []))))
  ]

  flatten-last_batch : (batch : List A) → flatten (last_batch batch) ≡ batch ++ []
  unfolding last_batch flatten
  flatten-last_batch [] = refl
  flatten-last_batch (x ∷ xs) = refl

  flatten-fill : (n : ℕ) (batch xs : List A) → flatten (fill n batch xs) ≡ batch ++ xs
  unfolding fill flatten
  flatten-fill n batch [] = flatten-last_batch batch
  flatten-fill n batch (x ∷ xs) = elim (Bool-cases (eqb (length (batch ++ x ∷ [])) n)) [
    | inl size ↦
        simp size (
          ap (λ ys. (batch ++ x ∷ []) ++ ys) (flatten-fill n [] xs)
          ∙ append_assoc batch (x ∷ []) xs)
    | inr other ↦ simp other (flatten-fill n (batch ++ x ∷ []) xs ∙ append_assoc batch (x ∷ []) xs)
  ]

  -- The batches of a size above 0, joined, are the list, and have that size up to the last one.
  pub batched-AreBatches :
      (n : ℕ) (xs : List A) → 0 < n → AreBatches n (batched n xs) × (flatten (batched n xs) ≡ xs)
  unfolding batched
  batched-AreBatches n xs above = (fill-AreBatches n [] xs above, flatten-fill n [] xs)

module _ (R : Runtime) (sendto : ℕ → Option Exception) where
  -- All objects went out, in order, or those before one that the socket refused.
  abbrev pub Sends : List (Value R.Float) → Sent → Exc (Unit {0}) × Sent → Type 0
  Sends objects state (ok u, after) = after.datagrams ≡ state.datagrams ++ map R.dumps objects
  Sends objects state (raise e, after) =
      (done : List (Value R.Float)) × (left : List (Value R.Float)) × (objects ≡ done ++ left)
      × (after.datagrams ≡ state.datagrams ++ map R.dumps done)
      × (sendto (length after.datagrams) ≡ some e)

  Sends-append :
      (xs ys : List (Value R.Float)) (state state' : Sent) (o : Exc (Unit {0}) × Sent)
      → state'.datagrams ≡ state.datagrams ++ map R.dumps xs
      → Sends ys state' o
      → Sends (xs ++ ys) state o
  Sends-append xs ys state state' (ok u, after) first h =
      h
      ∙ ap (λ l. l ++ map R.dumps ys) first
      ∙ append_assoc state.datagrams (map R.dumps xs) (map R.dumps ys)
      ∙ ap (λ l. state.datagrams ++ l) (sym (map-append R.dumps xs ys))
  Sends-append xs ys state state' (raise e, after) first (done, left, split, sent, refused) = (
    xs ++ done,
    left,
    ap (λ l. xs ++ l) split ∙ sym (append_assoc xs done left),
    sent
        ∙ ap (λ l. l ++ map R.dumps done) first
        ∙ append_assoc state.datagrams (map R.dumps xs) (map R.dumps done)
        ∙ ap (λ l. state.datagrams ++ l) (sym (map-append R.dumps xs done)),
    refused,
  )

  send_batch-Sends :
      (batch : List (Value R.Float)) (state : Sent)
      → Sends batch state (send_batch R sendto batch state)
  unfolding send_batch
  send_batch-Sends [] state = sym (append-nil state.datagrams)
  send_batch-Sends (object ∷ batch) state = elim (Option-cases (sendto (length state.datagrams))) [
    | inl accepted ↦
        let state' : Sent = record state { datagrams = state.datagrams ++ R.dumps object ∷ [] } in
        rw (accepted, send_batch)
          (Sends-append (object ∷ []) batch state state' (send_batch R sendto batch state') refl
            (send_batch-Sends batch state'))
    | inr (e, refused) ↦
        rw (refused, send_batch)
          ([], object ∷ batch, refl, sym (append-nil state.datagrams), refused)
  ]

  Sends-and_then :
      (xs ys : List (Value R.Float)) (state : Sent) (o : Exc (Unit {0}) × Sent)
      (next : Sent → Exc (Unit {0}) × Sent)
      → Sends xs state o
      → ((s : Sent)
          → s.datagrams ≡ state.datagrams ++ map R.dumps xs
          → Sends (xs ++ ys) state (next s))
      → Sends (xs ++ ys) state (and_then o next)
  Sends-and_then xs ys state (ok u, s) next h more = more s h
  Sends-and_then xs ys state (raise e, s) next (done, left, split, sent, refused) more =
      (done, left ++ ys, ap (λ l. l ++ ys) split ∙ append_assoc done left ys, sent, refused)

  pause-returns :
      (time : ℤ) (state : Sent)
      → ltbℤ time (pos 0) ≡ false
      → pause R sendto time state ≡ (ok tt, record state { sleeps = state.sleeps ++ time ∷ [] })
  unfolding pause
  pause-returns time state h = simp h

  send_batches-Sends :
      (batches : List (List (Value R.Float))) (time : ℤ) (state : Sent)
      → ltbℤ time (pos 0) ≡ false
      → Sends (flatten batches) state (send_batches R sendto batches time state)
  unfolding send_batches flatten
  send_batches-Sends [] time state h = sym (append-nil state.datagrams)
  send_batches-Sends (batch ∷ batches) time state h =
      Sends-and_then batch (flatten batches) state (send_batch R sendto batch state) _
        (send_batch-Sends batch state)
        λ s sent.
          let s' : Sent = record s { sleeps = s.sleeps ++ time ∷ [] } in
          rw (pause-returns time s h) (
            Sends-append batch (flatten batches) state s' (send_batches R sendto batches time s')
              sent (send_batches-Sends batches time s' h))

  -- With a batch size above 0 and a time that is not negative, `send` returns when every object has
  -- gone out, one datagram each and in order; it raises the error of the socket on the first object
  -- that this refuses, and then the objects before that one have gone out.
  pub send-Sends :
      (objects : List (Value R.Float)) (batch_size : ℕ) (time : ℤ) (state : Sent)
      → 0 < batch_size
      → ltbℤ time (pos 0) ≡ false
      → Sends objects state (send R sendto objects batch_size time state)
  unfolding send
  send-Sends objects batch_size time state above h =
      let size : eqb batch_size 0 ≡ false = ground arith in
      simp size (
        subst (λ l. Sends l state (send_batches R sendto (batched batch_size objects) time state))
          (batched-AreBatches batch_size objects above).1
          (send_batches-Sends (batched batch_size objects) time state h))

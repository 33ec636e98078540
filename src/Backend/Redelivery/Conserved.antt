-- ===== src/Backend/Redelivery/Conserved.antt =====
-- No message of the queue is lost, and none appears that was not published.
use mathlib.Core.List.{
  Mem, Mem-prop, mem-append, mem-append_left, mem-append_right, mem-cons_of_mem, not-mem-nil,
  append-nil, append_assoc, map-append, perm_middle, Perm,
}
use mathlib.Core.List.Perm
use mathlib.Core.Logic.Or
use rtls_stream_visualizer.Base.{
  ◌≡◌, refl, sym, subst, inl, inr, Bool-cases, List, [], ◌∷◌, ◌++◌, map,
}
use rtls_stream_visualizer.Base.Perms.{Perm-last, Perm-spread}
use rtls_stream_visualizer.Base.Raise.{Exc, ok, raise}
use rtls_stream_visualizer.Python.Value.{Fields, obj, lookup}
use rtls_stream_visualizer.Python.Runtime.{Runtime, Loaded, loaded, malformed, failed}
use rtls_stream_visualizer.Handler.Ls1000.Coords.{or_null}
use rtls_stream_visualizer.Backend.Database.{Row, Storage, row_of}
use rtls_stream_visualizer.Backend.Consumer.{Verdict, acked, requeued, World, has_tag, on_message}
use rtls_stream_visualizer.Backend.Flight.{
  Phase, received, inserted, upserted, stored, System, begin, begin_tagged, begin_row, Work, begins,
  upserts, commits, rolls_back, offers,
}
use rtls_stream_visualizer.Backend.Flight.Fates.{fate}
use rtls_stream_visualizer.Backend.Redelivery.{
  Broker, message_of, messages_of, returned, taken, ends, Turn, arrives, delivers, works,
  acknowledges, visits, restarts, Turns, stay, go, arrived, arrived_in, new_broker,
}

module _ {F : Type 0} where
  messages_of-split :
      (before ps after : List (Phase F))
      → Perm
          (messages_of (before ++ (ps ++ after)))
          (messages_of ps ++ messages_of (before ++ after))
  messages_of-split [] ps after =
      subst (Perm (messages_of (ps ++ after))) (map-append message_of ps after) (Perm.refl _)
  messages_of-split (p ∷ before) ps after =
      Perm.trans (Perm.cons (message_of p) (messages_of-split before ps after))
        (Perm.symm (perm_middle (messages_of ps) (messages_of (before ++ after))))

  -- The message of a handler is still its own, goes back, or is gone.
  abbrev pub Kept : Loaded F → List (Phase F) → List (Loaded F × Verdict) → Type 0
  Kept m ps es = (returned es ++ (messages_of ps ++ taken es)) ≡ m ∷ []

  Kept-verdict : (m : Loaded F) (v : Verdict) → Kept m [] (map (λ v. (m, v)) (fate {F = F} [] v))
  Kept-verdict m acked = refl
  Kept-verdict m requeued = refl

  Kept-Perm :
      (before ps after : List (Phase F)) (p : Phase F) (es : List (Loaded F × Verdict))
      → Kept (message_of p) ps es
      → Perm
          (messages_of (before ++ p ∷ after))
          (returned es ++ (messages_of (before ++ (ps ++ after)) ++ taken es))
  Kept-Perm before ps after p es kept = Perm.trans (messages_of-split before (p ∷ []) after) (
      subst
        (λ l.
          Perm (l ++ messages_of (before ++ after))
            (returned es ++ (messages_of (before ++ (ps ++ after)) ++ taken es)))
        kept
        (Perm-spread (returned es) (messages_of ps) (taken es) (messages_of (before ++ after))
          (messages_of (before ++ (ps ++ after))) (messages_of-split before ps after)))

module _ (R : Runtime) where
  begin_row-Kept :
      (envelope : Fields R.Float) (w : World R.Float) (r : Exc (Row R.Float)) (v : Verdict)
      → let ps = (begin_row R envelope w r).0 in
        Kept (loaded (obj envelope)) ps (map (λ v. (loaded (obj envelope), v)) (fate ps v))
  unfolding begin_row
  begin_row-Kept envelope w (ok row) v = refl
  begin_row-Kept envelope w (raise e) v = Kept-verdict (loaded (obj envelope)) v

  begin-Kept :
      (S : Storage R.Float) (m : Loaded R.Float) (w : World R.Float) (v : Verdict)
      → let ps = (begin R S m w).0 in Kept m ps (map (λ v. (m, v)) (fate ps v))
  unfolding begin begin_tagged
  begin-Kept S (malformed reason) w v = Kept-verdict (malformed reason) v
  begin-Kept S (failed e) w v = Kept-verdict (failed e) v
  begin-Kept S (loaded (obj envelope)) w v =
      elim (Bool-cases (has_tag (or_null (lookup envelope "payload")))) [
        | inl tagged_ ↦ simp tagged_ (begin_row-Kept envelope w (row_of R S envelope) v)
        | inr untagged ↦ simp untagged (Kept-verdict (loaded (obj envelope)) v)
      ]
  begin-Kept S (loaded v') w v = Kept-verdict (loaded v') v

  Work-Perm :
      (s t : System R.Float) (work : Work R s t)
      → Perm
          (messages_of s.flight)
          (returned (ends R s t work) ++ (messages_of t.flight ++ taken (ends R s t work)))
  unfolding ends
  Work-Perm s t (begins S m before after e) =
      let v = (on_message R S m s.world).0 in
      let ps = (begin R S m s.world).0 in
      rw e (
        Kept-Perm before ps after (received m) (map (λ v. (m, v)) (fate ps v))
          (begin-Kept S m s.world v))
  Work-Perm s t (upserts envelope row before after e free) =
      rw e (Kept-Perm before (upserted envelope row _ ∷ []) after (inserted envelope row) [] refl)
  Work-Perm s t (commits envelope row current before after e) =
      rw e
        (Kept-Perm before (stored envelope row ∷ []) after (upserted envelope row current) [] refl)
  Work-Perm s t (rolls_back phase before after e open_) =
      rw e (Kept-Perm before [] after phase ((message_of phase, requeued) ∷ []) refl)
  Work-Perm s t (offers envelope row before after e) =
      rw e
        (Kept-Perm before [] after (stored envelope row) ((loaded (obj envelope), acked) ∷ []) refl)

module _ {F : Type 0} where
  -- The messages that are with the broker, with a handler, or through.
  abbrev pub held : Broker F → List (Loaded F)
  held b = b.ready ++ (messages_of b.system.flight ++ b.settled)

  arrival_Perm :
      (m : Loaded F) (b : Broker F)
      → Perm (held b ++ m ∷ []) (held (record b { ready = b.ready ++ m ∷ [] }))
  arrival_Perm m b = Perm-last b.ready (messages_of b.system.flight ++ b.settled) (m ∷ [])

  delivery_Perm :
      (m : Loaded F) (before after flight settled : List (Loaded F))
      → Perm
          ((before ++ m ∷ after) ++ (flight ++ settled))
          ((before ++ after) ++ ((flight ++ m ∷ []) ++ settled))
  delivery_Perm m before after flight settled =
      Perm.trans (Perm.append_right (flight ++ settled) (perm_middle before after)) (
        Perm.symm (
          subst
            (λ l. Perm ((before ++ after) ++ l) (m ∷ ((before ++ after) ++ (flight ++ settled))))
            (sym (append_assoc flight (m ∷ []) settled))
            (Perm.trans (Perm.append_left (before ++ after) (perm_middle flight settled))
              (perm_middle (before ++ after) (flight ++ settled)))))

  work_Perm :
      (ready back flight flight' settled gone : List (Loaded F))
      → Perm flight (back ++ (flight' ++ gone))
      → Perm (ready ++ (flight ++ settled)) ((ready ++ back) ++ (flight' ++ (settled ++ gone)))
  work_Perm ready back flight flight' settled gone h =
      subst (Perm (ready ++ (flight ++ settled)))
        (sym (append_assoc ready back (flight' ++ (settled ++ gone))))
        (Perm.append_left ready (
          subst (λ l. Perm (flight ++ settled) (back ++ l)) (append_assoc flight' settled gone)
            (Perm.trans (Perm.append_right settled h)
              (Perm-spread back flight' gone settled (flight' ++ settled) (Perm.refl _)))))

  restart_Perm :
      (arrived again ready flight settled unacked : List (Loaded F))
      → Perm (arrived ++ again) (ready ++ (flight ++ settled))
      → Perm (arrived ++ (again ++ unacked)) ((ready ++ (flight ++ unacked)) ++ settled)
  restart_Perm arrived again ready flight settled unacked h =
      subst (λ l. Perm l ((ready ++ (flight ++ unacked)) ++ settled))
        (append_assoc arrived again unacked)
        (Perm.trans (Perm.append_right unacked h) (
          subst (λ l. Perm ((ready ++ (flight ++ settled)) ++ unacked) l)
            (sym (append_assoc ready (flight ++ unacked) settled))
            (subst (λ l. Perm l (ready ++ ((flight ++ unacked) ++ settled)))
              (sym (append_assoc ready (flight ++ settled) unacked))
              (Perm.append_left ready (Perm-last flight settled unacked)))))

module _ (R : Runtime) where
  -- The messages that were published to the queue, with those that it has delivered again.
  Turn-Perm :
      (ms : List (Loaded R.Float)) (b c : Broker R.Float) (turn : Turn R b c)
      → Perm (ms ++ b.again) (held b)
      → Perm ((ms ++ arrived_in R b c turn) ++ c.again) (held c)
  Turn-Perm ms b c (arrives m) h =
      Perm.trans (Perm-last ms (m ∷ []) b.again)
        (Perm.trans (Perm.append_right (m ∷ []) h) (arrival_Perm m b))
  Turn-Perm ms b c (delivers m before after e room) h =
      let flight = messages_of b.system.flight in
      rw (append-nil ms, map-append message_of b.system.flight (received m ∷ []))
        (Perm.trans h (rw e (delivery_Perm m before after flight b.settled)))
  Turn-Perm ms b c (works {t} work) h = rw (append-nil ms) (
      Perm.trans h (
        work_Perm b.ready (returned (ends R b.system t work)) (messages_of b.system.flight)
          (messages_of t.flight) b.settled (taken (ends R b.system t work))
          (Work-Perm R b.system t work)))
  Turn-Perm ms b c (acknowledges m before after e) h = rw (append-nil ms) h
  Turn-Perm ms b c (visits op visit) h = rw (append-nil ms) h
  Turn-Perm ms b c restarts h =
      rw (append-nil ms)
        (restart_Perm ms b.again b.ready (messages_of b.system.flight) b.settled b.unacked h)

  -- The messages that were published to the queue, and those that went back to it although their
  -- handlers had returned, are each as often those that are with the broker, those that are with a
  -- handler, and those whose handlers have returned.
  pub Turns-Perm :
      (w : World R.Float) (b : Broker R.Float) (turns : Turns R (new_broker w) b)
      → Perm (arrived R (new_broker w) b turns ++ b.again) (held b)
  unfolding arrived
  Turns-Perm w b stay = Perm.refl []
  Turns-Perm w b (go {c = m} turns turn) =
      Turn-Perm (arrived R (new_broker w) m turns) m b turn (Turns-Perm w m turns)

  -- Of a message: if its acknowledgement is on the way, its handler has returned, and if it went back
  -- so, it is one of these.
  abbrev IsKnown : Loaded R.Float → List (Loaded R.Float) → Broker R.Float → Type 0
  IsKnown x ms b = (Mem x b.unacked → Mem x b.settled) × (Mem x b.again → Mem x ms)

  mem-settled :
      (x : Loaded R.Float) (ms : List (Loaded R.Float)) (b : Broker R.Float)
      → Perm (ms ++ b.again) (held b)
      → (Mem x b.again → Mem x ms)
      → Mem x b.settled
      → Mem x ms
  mem-settled x ms b h known m =
      let all : Mem x (held b) =
        mem-append_right b.ready (mem-append_right (messages_of b.system.flight) m) in
      Or.elim Mem-prop (mem-append.0 ((Perm.mem_iff h).1 all)) (λ k. k) known

  mem-both :
      (x : Loaded R.Float) (xs ys more : List (Loaded R.Float))
      → (Mem x xs → Mem x ys)
      → Mem x (xs ++ more)
      → Mem x (ys ++ more)
  mem-both x xs ys more h m =
      Or.elim Mem-prop (mem-append.0 m) (λ k. mem-append_left more (h k))
        (λ k. mem-append_right ys k)

  mem-remaining :
      (x m : Loaded R.Float) (before after : List (Loaded R.Float))
      → Mem x (before ++ after)
      → Mem x (before ++ m ∷ after)
  mem-remaining x m before after k =
      Or.elim Mem-prop (mem-append.0 k) (λ l. mem-append_left (m ∷ after) l)
        (λ r. mem-append_right before (mem-cons_of_mem m r))

  Turn-IsKnown :
      (x : Loaded R.Float) (ms : List (Loaded R.Float)) (b c : Broker R.Float) (turn : Turn R b c)
      → Perm (ms ++ b.again) (held b)
      → IsKnown x ms b
      → IsKnown x (ms ++ arrived_in R b c turn) c
  Turn-IsKnown x ms b c (arrives m) h (acks, goes) = (acks, λ k. mem-append_left (m ∷ []) (goes k))
  Turn-IsKnown x ms b c (delivers m before after e room) h known = rw (append-nil ms) known
  Turn-IsKnown x ms b c (works {t} work) h (acks, goes) =
      rw (append-nil ms)
        (mem-both x b.unacked b.settled (taken (ends R b.system t work)) acks, goes)
  Turn-IsKnown x ms b c (acknowledges m before after e) h (acks, goes) =
      rw (append-nil ms)
        (λ k. acks (subst (Mem x) (sym e) (mem-remaining x m before after k)), goes)
  Turn-IsKnown x ms b c (visits op visit) h known = rw (append-nil ms) known
  Turn-IsKnown x ms b c restarts h (acks, goes) = rw (append-nil ms) (
    λ k. absurd (not-mem-nil k),
    λ k. Or.elim Mem-prop (mem-append.0 k) goes (λ u. mem-settled x ms b h goes (acks u)),
  )

  Turns-IsKnown :
      (x : Loaded R.Float) (w : World R.Float) (b : Broker R.Float)
      (turns : Turns R (new_broker w) b)
      → IsKnown x (arrived R (new_broker w) b turns) b
  unfolding arrived
  Turns-IsKnown x w b stay = (λ k. k, λ k. k)
  Turns-IsKnown x w b (go {c = m} turns turn) =
      Turn-IsKnown x (arrived R (new_broker w) m turns) m b turn (Turns-Perm w m turns)
        (Turns-IsKnown x w m turns)

  -- What went back to the queue had been published to it.
  pub Turns-again :
      (w : World R.Float) (b : Broker R.Float) (turns : Turns R (new_broker w) b)
      (x : Loaded R.Float)
      → Mem x b.again
      → Mem x (arrived R (new_broker w) b turns)
  Turns-again w b turns x m = (Turns-IsKnown x w b turns).1 m

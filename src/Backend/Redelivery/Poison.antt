-- ===== src/Backend/Redelivery/Poison.antt =====
-- A message that no database can take.
use mathlib.Core.Logic.Or
use mathlib.Core.HLevel.{⊥_prop}
use mathlib.Core.List.{
  append_assoc, Mem, Mem-prop, mem-append, mem-append_left, mem-cons, not-mem-nil,
}
use mathlib.Core.List.Perm
use rtls_stream_visualizer.Base.{
  ◌≡◌, ◌≢◌, sym, ap, ◌∙◌, subst, String, Bool, true, false, if◌then◌else◌, List, [], ◌∷◌, ◌++◌, map,
  All, arith,
}
use rtls_stream_visualizer.Base.Raise.{Exception, ok, raise}
use rtls_stream_visualizer.Python.Value.{Value, obj, Fields, lookup}
use rtls_stream_visualizer.Python.Runtime.{Runtime, Loaded, loaded, malformed, failed}
use rtls_stream_visualizer.Handler.Ls1000.Coords.{or_null}
use rtls_stream_visualizer.Backend.Params.{extract_params}
use rtls_stream_visualizer.Backend.Database.{Row, Storage, row_of}
use rtls_stream_visualizer.Backend.Consumer.{World, has_tag}
use rtls_stream_visualizer.Backend.Consumer.Accepted.{Stored}
use rtls_stream_visualizer.Backend.Redelivery.{
  Broker, messages_of, object_in, tagged, Turns, arrived, new_broker,
}
use rtls_stream_visualizer.Backend.Redelivery.Conserved.{Turns-Perm}
use rtls_stream_visualizer.Backend.Redelivery.Made.{MadeOf}
use rtls_stream_visualizer.Backend.Redelivery.Settled.{all_published, Turns-IsSettled}

not-mem_of_All {ℓ} : {A : Type ℓ} (x : A) (xs : List A) → All (λ y. y ≢ x) xs → Mem x xs → ⊥
not-mem_of_All x [] h m = not-mem-nil m
not-mem_of_All x (y ∷ xs) (p, h) m =
    Or.elim ⊥_prop (mem-cons.0 m) (λ e. p (sym e)) (not-mem_of_All x xs h)

All-if {ℓ κ} :
    {A : Type ℓ} (P : A → Type κ) (b : Bool) (x : A) (xs : List A)
    → All P (if b then x ∷ xs else xs)
    → (b ≡ true → P x) × All P xs
All-if P true x xs (p, h) = (λ e. p, h)
All-if P false x xs h = (λ e. cc, h)

module _ {F : Type 0} (envelope : Fields F)
    (has : has_tag (or_null (lookup envelope "payload")) ≡ true) where
  All-tagged :
      (ms : List (Loaded F))
      → All (λ fs. fs ≢ envelope) (tagged ms)
      → All (λ m. m ≢ loaded (obj envelope)) ms
  unfolding tagged
  All-tagged [] h = tt
  All-tagged (loaded (obj fs) ∷ ms) h =
      let (p, rest) =
        All-if (λ fs. fs ≢ envelope) (has_tag (or_null (lookup fs "payload"))) fs (tagged ms) h in
      (
        λ e.
            let same : fs ≡ envelope = ap object_in e in
            p (ap (λ fs. has_tag (or_null (lookup fs "payload"))) same ∙ has) same,
        All-tagged ms rest,
      )
  All-tagged (malformed reason ∷ ms) h = (λ e. cc, All-tagged ms h)
  All-tagged (failed x ∷ ms) h = (λ e. cc, All-tagged ms h)
  All-tagged (loaded v ∷ ms) h = (λ e. cc, All-tagged ms h)

module _ (R : Runtime) (envelope : Fields R.Float) (error : Exception)
    (has : has_tag (or_null (lookup envelope "payload")) ≡ true)
    (broken : (print : Value R.Float → String)
      → extract_params R print envelope ≡ raise error) where
  row_of-broken : (S : Storage R.Float) (row : Row R.Float) → row_of R S envelope ≢ ok row
  unfolding row_of
  row_of-broken S row e = ground (arith, broken S.print)

  others_made :
      (cs : List (Stored R.Float))
      → All (λ c. MadeOf R c.0 c.1) cs
      → All (λ fs. fs ≢ envelope) (map (λ c. c.0) cs)
  others_made [] h = tt
  others_made ((fs, row) ∷ cs) ((_, (S, made)), h) =
      (λ e. row_of-broken S row (subst (λ fs. row_of R S fs ≡ ok row) e made), others_made cs h)

  -- A tagged envelope that lacks an item is never acknowledged, whatever the database, the broker and
  -- the clients do, and however often the backend is started again: once published to the queue, it is
  -- with the broker or with a handler for ever.
  pub Turns-poison :
      (w : World R.Float) (b : Broker R.Float) (turns : Turns R (new_broker w) b)
      → Mem (loaded (obj envelope)) (arrived R (new_broker w) b turns)
      → Mem (loaded (obj envelope)) (b.ready ++ messages_of b.system.flight)
  Turns-poison w b turns m =
      let h = Turns-IsSettled R w b turns in
      let never : All (λ m. m ≢ loaded (obj envelope)) b.settled =
        All-tagged envelope has b.settled (
          subst (All (λ fs. fs ≢ envelope)) (sym h.settled)
            (others_made (all_published b) h.sources)) in
      let here : Mem (loaded (obj envelope)) (b.ready ++ messages_of b.system.flight ++ b.settled) =
        subst (Mem (loaded (obj envelope)))
          (sym (append_assoc b.ready (messages_of b.system.flight) b.settled))
          ((Perm.mem_iff (Turns-Perm R w b turns)).0 (mem-append_left b.again m)) in
      Or.elim Mem-prop (mem-append.0 here) (λ k. k)
        (λ k. absurd (not-mem_of_All (loaded (obj envelope)) b.settled never k))

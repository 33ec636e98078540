-- ===== src/Backend/Broadcast/Delivery.antt =====
-- What a row of publications leaves in the queues.
use mathlib.Core.List.{append-nil, append_assoc}
use rtls_stream_visualizer.Base.{
  ℕ, zero, suc, ◌-◌, ◌≤◌, ◌<◌, ◌≡◌, refl, sym, ap, ap₂, ◌∙◌, true, false, inl, inr, Bool-cases,
  List, [], ◌∷◌, ◌++◌, map, length, length-append, take, All, arith,
}
use rtls_stream_visualizer.Backend.Broadcast.Queues.{IsValid, Fits, publish-IsValid}
use rtls_stream_visualizer.Backend.Broadcast.{Queue, Broadcast, full, offer, publish}

module _ {E : Type 0} where
  -- Publications in a row.
  unfoldable pub publish_all : Broadcast E → List E → Broadcast E
  publish_all b [] = b
  publish_all b (e ∷ es) = publish_all (publish b e) es

  -- A queue after the publications, of which it has room for some.
  abbrev pub filled : ℕ → List E → Queue E → Queue E
  filled maxsize es q = record q { items = q.items ++ take (maxsize - length q.items) es }

  full-room : (n : ℕ) (q : Queue E) → full n q ≡ true → n - length q.items ≡ zero
  unfolding full
  full-room n q h = ground arith

  room-suc :
      (n : ℕ) (q : Queue E)
      → 0 < n
      → full n q ≡ false
      → n - length q.items ≡ suc (n - length q.items - 1)
  unfolding full
  room-suc n q pos h = ground arith

  filled-offer :
      (n : ℕ) (e : E) (es : List E) (q : Queue E)
      → 0 < n
      → length q.items ≤ n
      → filled n es (offer n e q) ≡ filled n (e ∷ es) q
  unfolding offer
  filled-offer n e es q pos fits = elim (Bool-cases (full n q)) [
    | inl is_full ↦
        let none_left : n - length q.items ≡ zero = full-room n q is_full in
        simp is_full (
          ap (λ m. record q { items = q.items ++ m })
            (ap (λ m. take m es) none_left ∙ sym (ap (λ m. take m (e ∷ es)) none_left)))
    | inr has_room ↦
        let before : n - length q.items ≡ suc (n - length q.items - 1) =
          room-suc n q pos has_room in
        let after : n - length (q.items ++ e ∷ []) ≡ n - length q.items - 1 =
          omega (arith, length-append q.items (e ∷ [])) in
        simp has_room (
          ap (λ m. record q { items = m })
            (append_assoc q.items (e ∷ []) _
              ∙ ap (λ m. q.items ++ e ∷ take m es) after
              ∙ sym (ap (λ m. q.items ++ take m (e ∷ es)) before)))
  ]

  maxsize-publish_all : (b : Broadcast E) (es : List E) → (publish_all b es).maxsize ≡ b.maxsize
  unfolding publish_all publish
  maxsize-publish_all b [] = refl
  maxsize-publish_all b (e ∷ es) = maxsize-publish_all (publish b e) es

  map-filled :
      (n : ℕ) (e : E) (es : List E) (qs : List (Queue E))
      → 0 < n
      → All (λ q. length q.items ≤ n) qs
      → map (filled n es) (map (offer n e) qs) ≡ map (filled n (e ∷ es)) qs
  map-filled n e es [] pos h = refl
  map-filled n e es (q ∷ qs) pos (p, h) =
      ap₂ ◌∷◌ (filled-offer n e es q pos p) (map-filled n e es qs pos h)

  take-nil : (m : ℕ) (xs : List E) → xs ++ take m [] ≡ xs
  take-nil zero xs = append-nil xs
  take-nil (suc m) xs = append-nil xs

  map-filled-nil : (n : ℕ) (qs : List (Queue E)) → map (filled n []) qs ≡ qs
  map-filled-nil n [] = refl
  map-filled-nil n (q ∷ qs) =
      ap₂ ◌∷◌ (ap (λ m. record q { items = m }) (take-nil (n - length q.items) q.items))
        (map-filled-nil n qs)

  le_of_Fits :
      (n : ℕ) (qs : List (Queue E)) → 0 < n → All (Fits n) qs → All (λ q. length q.items ≤ n) qs
  le_of_Fits n [] pos h = tt
  le_of_Fits n (q ∷ qs) pos (p, h) = (ground arith, le_of_Fits n qs pos h)

  publish_all_step :
      (b : Broadcast E) (e : E) (es : List E)
      → 0 < b.maxsize
      → IsValid b
      → publish_all (publish b e) es ≡ (record (publish b e) {
        subscribers = map (filled (publish b e).maxsize es) (publish b e).subscribers;
      })
      → publish_all (publish b e) es
        ≡ record b { subscribers = map (filled b.maxsize (e ∷ es)) b.subscribers }
  unfolding publish
  publish_all_step b e es pos h ih =
      ih
      ∙ ap (λ s. record b { subscribers = s })
          (map-filled b.maxsize e es b.subscribers pos
            (le_of_Fits b.maxsize b.subscribers pos h.fits))

  -- After publications in a row with no read between them, every subscriber's queue has what it had
  -- and as many of the envelopes, the earliest, as it has room for; the others are dropped. No
  -- queue depends on how full another is, and nobody joins or leaves.
  pub publish_all_lem :
      (b : Broadcast E) (es : List E)
      → 0 < b.maxsize
      → IsValid b
      → publish_all b es ≡ record b { subscribers = map (filled b.maxsize es) b.subscribers }
  unfolding publish_all
  publish_all_lem b [] pos h =
      ap (λ s. record b { subscribers = s }) (sym (map-filled-nil b.maxsize b.subscribers))
  publish_all_lem b (e ∷ es) pos h =
      publish_all_step b e es pos h
        (publish_all_lem (publish b e) es (unfold publish in pos) (publish-IsValid b e h))

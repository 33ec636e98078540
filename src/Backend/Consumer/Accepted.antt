-- ===== src/Backend/Consumer/Accepted.antt =====
-- The tables and the broadcast after any messages, from the messages that were accepted.
use mathlib.Core.List.{map-append}
use rtls_stream_visualizer.Base.{
  ◌≡◌, refl, sym, ap, ◌∙◌, Bool-cases, inl, inr, List, [], ◌∷◌, ◌++◌, map, if◌then◌else◌, subst,
}
use rtls_stream_visualizer.Base.Raise.{Exc, ok, raise}
use rtls_stream_visualizer.Python.Value.{obj, Fields, lookup}
use rtls_stream_visualizer.Python.Runtime.{Runtime, Loaded, loaded, malformed, failed}
use rtls_stream_visualizer.Handler.Ls1000.Coords.{or_null}
use rtls_stream_visualizer.Backend.Database.{Tables, Row, Storage, row_of}
use rtls_stream_visualizer.Backend.Database.Latest.{record_row}
use rtls_stream_visualizer.Backend.Broadcast.{Broadcast, publish}
use rtls_stream_visualizer.Backend.Broadcast.Delivery.{publish_all}
use rtls_stream_visualizer.Backend.Consumer.{Verdict, World, has_tag, on_message, on_messages}
use rtls_stream_visualizer.Backend.Consumer.Outcomes.{
  effect_of_row, on_message_tagged, on_message_untagged,
}

-- An envelope with the row that it makes.
abbrev pub Stored : Type 0 → Type 0
Stored F = Fields F × Row F

abbrev pub with_row : {F : Type 0} → Fields F → Exc (Row F) → List (Stored F)
with_row envelope (ok row) = (envelope, row) ∷ []
with_row envelope (raise e) = []

-- The rows, recorded one after another.
unfoldable pub record_all : {F : Type 0} → Tables F → List (Row F) → Tables F
record_all t [] = t
record_all t (row ∷ rows) = record_all (record_row row t) rows

-- A world after these were stored and published.
abbrev pub Holds : {F : Type 0} → World F → List (Stored F) → World F → Type 0
Holds w ss after =
    (after.tables ≡ record_all w.tables (map (λ s. s.1) ss))
    × (after.broadcast ≡ publish_all w.broadcast (map (λ s. s.0) ss))

module _ {F : Type 0} where
  pub record_all-append :
      (t : Tables F) (rows more : List (Row F))
      → record_all t (rows ++ more) ≡ record_all (record_all t rows) more
  unfolding record_all
  record_all-append t [] more = refl
  record_all-append t (row ∷ rows) more = record_all-append (record_row row t) rows more

module _ {E : Type 0} where
  publish_all-append :
      (b : Broadcast (E)) (es fs : List (E))
      → publish_all b (es ++ fs) ≡ publish_all (publish_all b es) fs
  unfolding publish_all
  publish_all-append b [] fs = refl
  publish_all-append b (e ∷ es) fs = publish_all-append (publish b e) es fs

module _ (R : Runtime) where
  -- What one message is to be stored and published as: its envelope, if that has a tagged payload and
  -- makes a row.
  abbrev pub accepted_of : Storage R.Float → Loaded R.Float → List (Stored R.Float)
  accepted_of S (loaded (obj envelope)) =
      if has_tag (or_null (lookup envelope "payload"))
      then with_row envelope (row_of R S envelope)
      else []
  accepted_of S m = []

  unfoldable pub accepted : List (Storage R.Float × Loaded R.Float) → List (Stored R.Float)
  accepted [] = []
  accepted ((S, m) ∷ ms) = accepted_of S m ++ accepted ms

  effect_of_row-Holds :
      (envelope : Fields R.Float) (w : World R.Float) (r : Exc (Row R.Float))
      → Holds w (with_row envelope r) (effect_of_row envelope w r).1
  unfolding record_all publish_all
  effect_of_row-Holds envelope w (ok row) = (refl, refl)
  effect_of_row-Holds envelope w (raise e) = (refl, refl)

  on_message_object-Holds :
      (S : Storage R.Float) (envelope : Fields R.Float) (w : World R.Float)
      → Holds w (accepted_of S (loaded (obj envelope))) (on_message R S (loaded (obj envelope)) w).1
  unfolding record_all publish_all
  on_message_object-Holds S envelope w =
      let P : Verdict × World R.Float → Type 0 =
        λ o. Holds w (accepted_of S (loaded (obj envelope))) o.1 in
      elim (Bool-cases (has_tag (or_null (lookup envelope "payload")))) [
        | inl tagged ↦
            subst P (sym (on_message_tagged R S envelope w tagged))
              (simp tagged (effect_of_row-Holds envelope w (row_of R S envelope)))
        | inr untagged ↦
            subst P (sym (on_message_untagged R S envelope w untagged)) (simp untagged (refl, refl))
      ]

  on_message-Holds :
      (S : Storage R.Float) (m : Loaded R.Float) (w : World R.Float)
      → Holds w (accepted_of S m) (on_message R S m w).1
  unfolding on_message record_all publish_all
  on_message-Holds S (malformed reason) w = (refl, refl)
  on_message-Holds S (failed e) w = (refl, refl)
  on_message-Holds S (loaded (obj envelope)) w = on_message_object-Holds S envelope w
  on_message-Holds S (loaded v) w = (refl, refl)

  Holds-append :
      (w middle after : World R.Float) (ss more : List (Stored R.Float))
      → Holds w ss middle
      → Holds middle more after
      → Holds w (ss ++ more) after
  Holds-append w middle after ss more (t, b) (t', b') =
      let rows = map (λ (s : Stored R.Float). s.1) in
      let envelopes = map (λ (s : Stored R.Float). s.0) in
      (
        t'
            ∙ ap (λ x. record_all x (rows more)) t
            ∙ sym (record_all-append w.tables (rows ss) (rows more))
            ∙ ap (record_all w.tables) (sym (map-append (λ (s : Stored R.Float). s.1) ss more)),
        b'
            ∙ ap (λ x. publish_all x (envelopes more)) b
            ∙ sym (publish_all-append w.broadcast (envelopes ss) (envelopes more))
            ∙ ap (publish_all w.broadcast) (sym (map-append (λ (s : Stored R.Float). s.0) ss more)),
      )

  -- After any messages, whatever the database did meanwhile, exactly the envelopes with a tagged
  -- payload that made a row have been stored, each in both tables, and offered to the subscribers,
  -- in the order of the messages.
  pub on_messages-Holds :
      (ms : List (Storage R.Float × Loaded R.Float)) (w : World R.Float)
      → Holds w (accepted ms) (on_messages R ms w)
  unfolding on_messages accepted record_all publish_all
  on_messages-Holds [] w = (refl, refl)
  on_messages-Holds ((S, m) ∷ ms) w =
      Holds-append w (on_message R S m w).1 (on_messages R ms (on_message R S m w).1)
        (accepted_of S m) (accepted ms) (on_message-Holds S m w)
        (on_messages-Holds ms (on_message R S m w).1)

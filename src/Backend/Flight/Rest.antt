-- ===== src/Backend/Flight/Rest.antt =====
-- The invariant of the handlers in flight, and what it says of the others where one is looked at.
use mathlib.Core.List.{append_assoc, map-append, perm_append_singleton, perm_middle, Perm}
use mathlib.Core.List.Perm
use rtls_stream_visualizer.Base.{
  ◌≤◌, ◌<◌, ◌≡◌, refl, sym, ap, ◌∙◌, subst, true, eq_iff, List, [], ◌∷◌, ◌++◌, map, length, All,
  arith,
}
use rtls_stream_visualizer.Base.Dict.{get-set}
use rtls_stream_visualizer.Python.Value.{Fields}
use rtls_stream_visualizer.Backend.Database.{Row, Tables, insert_event, upsert_current}
use rtls_stream_visualizer.Backend.Database.Latest.{record_row}
use rtls_stream_visualizer.Backend.Consumer.{World}
use rtls_stream_visualizer.Backend.Consumer.Accepted.{Stored, record_all, record_all-append}
use rtls_stream_visualizer.Backend.Flight.{
  prefetch_count, Phase, received, inserted, upserted, stored, System, in_transaction, upsert_on,
  commit_rows,
}
use rtls_stream_visualizer.Backend.Flight.Splits.{
  All-out, All-insert, length-split, Differ, Apart, Apart-out, Apart-insert, own, unoffered,
  unoffered-split,
}

module _ {F : Type 0} where
  -- The row that an open transaction has made the current one is still the right one.
  abbrev pub IsRight : Tables F → Phase F → Type 0
  IsRight t (upserted envelope row current) = current ≡ upsert_on t row
  IsRight t p = Unit

  commit_rows-upsert_on :
      (row : Row F) (t : Tables F) → commit_rows row (upsert_on t row) t ≡ record_row row t
  unfolding insert_event upsert_current
  commit_rows-upsert_on row t = refl

  IsRight-commit_rows :
      (envelope : Fields F) (row current : Row F) (t : Tables F) (p : Phase F)
      → Differ (upserted envelope row current) p
      → IsRight t p
      → IsRight (commit_rows row current t) p
  IsRight-commit_rows envelope row current t (received m) d h = tt
  IsRight-commit_rows envelope row current t (inserted e r) d h = tt
  IsRight-commit_rows envelope row current t (stored e r) d h = tt
  IsRight-commit_rows envelope row current t (upserted e r c) d h =
      rw (get-set t.current_positions row.tag_id r.tag_id current)
        (ground (arith, eq_iff row.tag_id r.tag_id, eq_iff r.tag_id row.tag_id))

  All-IsRight-commit_rows :
      (envelope : Fields F) (row current : Row F) (t : Tables F) (flight : List (Phase F))
      → All (Differ (upserted envelope row current)) flight
      → All (IsRight t) flight
      → All (IsRight (commit_rows row current t)) flight
  All-IsRight-commit_rows envelope row current t [] d h = tt
  All-IsRight-commit_rows envelope row current t (p ∷ flight) (d, ds) (h, hs) = (
    IsRight-commit_rows envelope row current t p d h,
    All-IsRight-commit_rows envelope row current t flight ds hs,
  )

  -- What holds of the handlers in flight and of the logs, `t0` being the tables at the start.
  pub record IsSound (t0 : Tables F) (s : System F) : Type 0 where
    -- No more messages than the broker hands out.
    pub few : length s.flight ≤ prefetch_count
    -- The tables are as if the committed messages had been handled one after another.
    pub serial : s.world.tables ≡ record_all t0 (map (λ c. c.1) s.committed)
    -- What was broadcast, with what is still to be, is what was committed.
    pub logs : Perm (s.published ++ unoffered s.flight) s.committed
    pub apart : Apart s.flight
    pub right : All (IsRight s.world.tables) s.flight

  -- The same of the other handlers, where one of them, of whose log entries `mine` is the list, is
  -- looked at by itself.
  pub record Rest (t0 t : Tables F) (committed published mine : List (Stored F))
      (others : List (Phase F)) : Type 0 where
    pub few : length others < prefetch_count
    pub serial : t ≡ record_all t0 (map (λ c. c.1) committed)
    pub logs : Perm (published ++ (mine ++ unoffered others)) committed
    pub apart : Apart others
    pub right : All (IsRight t) others

  pub Rest-of :
      (t0 : Tables F) (s : System F) (before : List (Phase F)) (p : Phase F)
      (after : List (Phase F))
      → s.flight ≡ before ++ p ∷ after
      → IsSound t0 s
      → Rest t0 s.world.tables s.committed s.published (own p) (before ++ after)
        × All (Differ p) (before ++ after)
        × IsRight s.world.tables p
  Rest-of t0 s before p after e h =
      let (differ, apart) = Apart-out before p after (subst Apart e h.apart) in
      let (mine, others) =
        All-out (IsRight s.world.tables) before p after
          (subst (All (IsRight s.world.tables)) e h.right) in
      let few : length (before ++ after) < prefetch_count =
        omega (arith, h.few, ap length e, length-split before p after) in
      let logs : Perm (s.published ++ (own p ++ unoffered (before ++ after))) s.committed =
        Perm.trans
          (Perm.append_left s.published (
            Perm.symm (
              subst (λ l. Perm (unoffered l) (own p ++ unoffered (before ++ after))) (sym e)
                (unoffered-split before p after))))
          h.logs in
      (
        record { few = few; serial = h.serial; logs = logs; apart = apart; right = others },
        differ,
        mine,
      )

  pub IsSound-drop :
      (t0 : Tables F) (w : World F) (committed published : List (Stored F))
      (others : List (Phase F))
      → Rest t0 w.tables committed published [] others
      → IsSound t0
          (record { world = w; flight = others; committed = committed; published = published })
  IsSound-drop t0 w committed published others h = record {
    few = omega (arith, h.few);
    serial = h.serial;
    logs = h.logs;
    apart = h.apart;
    right = h.right;
  }

  pub IsSound-put :
      (t0 : Tables F) (w : World F) (committed published : List (Stored F))
      (before : List (Phase F)) (p : Phase F) (after : List (Phase F))
      → Rest t0 w.tables committed published (own p) (before ++ after)
      → All (Differ p) (before ++ after)
      → IsRight w.tables p
      → IsSound t0 (record {
        world = w;
        flight = before ++ p ∷ after;
        committed = committed;
        published = published;
      })
  IsSound-put t0 w committed published before p after h d r = record {
    few = omega (arith, h.few, length-split before p after);
    serial = h.serial;
    logs = Perm.trans (Perm.append_left published (unoffered-split before p after)) h.logs;
    apart = Apart-insert before p after d h.apart;
    right = All-insert (IsRight w.tables) before p after r h.right;
  }

  pub All-true :
      (P : Phase F → Type 0) → ((p : Phase F) → P p) → (flight : List (Phase F)) → All P flight
  All-true P f [] = tt
  All-true P f (p ∷ flight) = (f p, All-true P f flight)

  pub own-in_transaction : (p : Phase F) → in_transaction p ≡ true → own p ≡ []
  own-in_transaction (received m) h = refl
  own-in_transaction (inserted envelope row) h = refl
  own-in_transaction (upserted envelope row current) h = refl
  own-in_transaction (stored envelope row) h = cc

  Perm-end :
      (x : Stored F) (xs ys zs : List (Stored F))
      → Perm (xs ++ ys) zs
      → Perm (xs ++ x ∷ ys) (zs ++ x ∷ [])
  Perm-end x xs ys zs h =
      Perm.trans (perm_middle xs ys)
        (Perm.trans (Perm.symm (perm_append_singleton x (xs ++ ys))) (Perm.append_right (x ∷ []) h))

  record_all-end :
      (t0 : Tables F) (cs : List (Stored F)) (envelope : Fields F) (row : Row F)
      → record_all t0 (map (λ c. c.1) (cs ++ (envelope, row) ∷ []))
        ≡ record_row row (record_all t0 (map (λ c. c.1) cs))
  unfolding record_all
  record_all-end t0 cs envelope row =
      ap (record_all t0) (map-append (λ (c : Stored F). c.1) cs ((envelope, row) ∷ []))
      ∙ record_all-append t0 (map (λ (c : Stored F). c.1) cs) (row ∷ [])

  pub Rest-commit :
      (t0 t : Tables F) (committed published : List (Stored F)) (others : List (Phase F))
      (envelope : Fields F) (row current : Row F)
      → All (Differ (upserted envelope row current)) others
      → current ≡ upsert_on t row
      → Rest t0 t committed published [] others
      → Rest t0
          (commit_rows row current t)
          (committed ++ (envelope, row) ∷ [])
          published
          ((envelope, row) ∷ [])
          others
  Rest-commit t0 t committed published others envelope row current differ mine h = record {
    few = h.few;
    serial =
        ap (λ c. commit_rows row c t) mine
        ∙ commit_rows-upsert_on row t
        ∙ ap (record_row row) h.serial
        ∙ sym (record_all-end t0 committed envelope row);
    logs = Perm-end (envelope, row) published (unoffered others) committed h.logs;
    apart = h.apart;
    right = All-IsRight-commit_rows envelope row current t others differ h.right;
  }

  pub Rest-offer :
      (t0 t : Tables F) (committed published : List (Stored F)) (others : List (Phase F))
      (x : Stored F)
      → Rest t0 t committed published (x ∷ []) others
      → Rest t0 t committed (published ++ x ∷ []) [] others
  Rest-offer t0 t committed published others x h = record {
    few = h.few;
    serial = h.serial;
    logs =
        subst (λ l. Perm l committed) (sym (append_assoc published (x ∷ []) (unoffered others)))
          h.logs;
    apart = h.apart;
    right = h.right;
  }

-- ===== src/Backend/Socket/Session.antt =====
-- `positions_ws` of backend/api/ws.py as a whole, for one client.
use rtls_stream_visualizer.Base.{
  ◌≡◌, refl, Bool, true, false, not, Option, List, [], ◌∷◌, map, keep, if◌then◌else◌,
}
use rtls_stream_visualizer.Base.Dict.{Dict}
use rtls_stream_visualizer.Base.Raise.{Exc, ok, raise}
use rtls_stream_visualizer.Python.Value.{Value, Fields}
use rtls_stream_visualizer.Python.Runtime.{Runtime, Loaded}
use rtls_stream_visualizer.Backend.Database.{Row, Storage}
use rtls_stream_visualizer.Backend.Consumer.{World, on_messages}
use rtls_stream_visualizer.Backend.Columns.{Column, row_dict}
use rtls_stream_visualizer.Backend.Current.{get_all_current_positions}
use rtls_stream_visualizer.Backend.Current.Keyed.{IsKeyed}
use rtls_stream_visualizer.Backend.Current.Shown.{Orders, is_outdated, stream-is_outdated}
use rtls_stream_visualizer.Backend.Socket.{
  End, disconnected, waiting, crashed, Stream, snapshot_timestamps, stream, Hub, open_socket,
  close_socket,
}
use rtls_stream_visualizer.Backend.Socket.Fresh.{Position}

-- What is sent as JSON.
pub data Frame (F : Type 0) : Type 0 where
  snapshot : List (Dict (Value F)) → Frame F
  envelope : Fields F → Frame F

-- What the client, the database and the queue give to a connection.
pub record Client (F : Type 0) : Type 0 where
  -- websocket.accept()
  pub accepts : Exc (Unit {0})
  -- The rows of `_snapshot`, or what the pool or the query raises.
  pub found : Exc (List (Row F))
  -- Whether the snapshot can be sent.
  pub stays : Bool
  -- What the queue gives, each with whether it could be sent.
  pub received : List (Fields F × Bool)

module _ (R : Runtime) (column : Column R.Float) where
  -- What was sent, and how it ended; none is an `accept` that raised, before the `try`.
  abbrev pub Talk : Type 0
  Talk = List (Frame R.Float) × End R

  abbrev pub after_snapshot : List (Row R.Float) → Stream R → Talk
  after_snapshot rows s =
      (snapshot (map (row_dict column) rows) ∷ map (λ e. envelope e) s.sent, s.last)

  -- The `try` block.
  abbrev pub talk : Client R.Float → Exc (List (Row R.Float)) → Talk
  talk client (raise e) = ([], crashed e)
  talk client (ok rows) =
      if client.stays
      then after_snapshot rows (stream R (snapshot_timestamps rows) client.received)
      else ([], disconnected)

  abbrev is_waiting : End R → Bool
  is_waiting waiting = true
  is_waiting end = false

  -- The handler, while `others` changes the hub between its beginning and its end.
  unfoldable pub positions_ws :
      Client R.Float
      → (Hub (Fields R.Float) → Hub (Fields R.Float))
      → Hub (Fields R.Float)
      → Option (End R) × (List (Frame R.Float) × Hub (Fields R.Float))
  positions_ws client others hub = elim client.accepts [
    | raise e ↦ (Option.none, ([], others hub))
    | ok u ↦
        let (key, opened) = open_socket hub in
        let (frames, end) = talk client client.found in
        (
          Option.some end,
          (frames, if is_waiting end then others opened else close_socket key (others opened)),
        )
  ]

module _ (R : Runtime) (column : Column R.Float) (order : List (Row R.Float) → List (Row R.Float))
    (orders : Orders order) where
  -- After any messages, a client that is accepted, whose snapshot is read and that stays connected is
  -- sent a dict for the current row of each tag and then, in order, exactly the positions that are
  -- not before the current row of their tag, nor before the epoch where the tag has none; the handler
  -- then waits for more, with the client subscribed.
  pub positions_ws-is_outdated :
      (ms : List (Storage R.Float × Loaded R.Float)) (w : World R.Float)
      (ps : List (Position R.Float)) (others : Hub (Fields R.Float) → Hub (Fields R.Float))
      (hub : Hub (Fields R.Float))
      → IsKeyed w.tables
      → let rows = get_all_current_positions order (on_messages R ms w).tables in
        let kept = keep (λ p. not (is_outdated (on_messages R ms w).tables p)) ps in
        positions_ws R column
          (record {
            accepts = ok tt;
            found = ok rows;
            stays = true;
            received = map (λ p. (p.envelope, true)) ps;
          })
          others
          hub
        ≡ (
          Option.some waiting,
          (
            snapshot (map (row_dict column) rows)
                ∷ map (λ e. envelope e) (map (λ (p : Position R.Float). p.envelope) kept),
            others (open_socket hub).1,
          ),
        )
  unfolding positions_ws
  positions_ws-is_outdated ms w ps others hub keyed =
      rw (stream-is_outdated R order orders ms w ps keyed) refl

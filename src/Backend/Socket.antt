-- ===== src/Backend/Socket.antt =====
-- backend/api/ws.py: the snapshot, the stale filter and the stream of one client.
pub mod Fresh
pub mod Lifetime
pub mod Session
pub mod Gauge
use rtls_stream_visualizer.Base.{
  ℕ, ◌+◌, ◌-◌, String, Bool, true, false, Option, none, some, List, [], ◌∷◌, if◌then◌else◌,
}
use rtls_stream_visualizer.Base.Int.{ℤ, pos, ltbℤ}
use rtls_stream_visualizer.Base.Dict
use rtls_stream_visualizer.Base.Dict.{Dict}
use rtls_stream_visualizer.Base.Raise.{Exception, Exc, ok, raise, type_error, ◌>>=◌}
use rtls_stream_visualizer.Python.Value.{
  Value, number_of, null, integer, float, str, arr, obj, Fields, end, lookup,
}
use rtls_stream_visualizer.Python.Runtime.{Runtime}
use rtls_stream_visualizer.Backend.Params.{get_or, fields_of}
use rtls_stream_visualizer.Backend.Database.{Row}
use rtls_stream_visualizer.Backend.Broadcast.{Broadcast, subscribe, unsubscribe}

-- The dict comprehension of `_snapshot_timestamps`; every row of the snapshot has a tag.
timestamps_from : {F : Type 0} → Dict ℤ → List (Row F) → Dict ℤ
timestamps_from d [] = d
timestamps_from d (row ∷ rows) = timestamps_from (Dict.set d row.tag_id row.ts_utc_ms) rows

unfoldable pub snapshot_timestamps : {F : Type 0} → List (Row F) → Dict ℤ
unfolding timestamps_from
snapshot_timestamps rows = timestamps_from [] rows

-- snapshot_ts.get(tag, 0)
abbrev pub or_zero : Option ℤ → ℤ
or_zero none = pos 0
or_zero (some n) = n

module _ (R : Runtime) where
  -- `ts < n`; a value that is no number raises.
  unfoldable pub precedes : Value R.Float → ℤ → Exc Bool
  precedes (integer i) n = ok (ltbℤ (number_of i) n)
  precedes (float x) n = ok (R.float_lt x n)
  precedes v n = raise type_error

  -- snapshot_ts.get(tag_id, 0): a list or a dict cannot be a key, other values are no key of it.
  unfoldable pub known_ts : Value R.Float → Dict ℤ → Exc ℤ
  known_ts (str tag) d = ok (or_zero (Dict.get d tag))
  known_ts (arr items) d = raise type_error
  known_ts (obj fs) d = raise type_error
  known_ts v d = ok (pos 0)

  -- The comparison of `_is_stale` where neither the tag nor the timestamp is None.
  unfoldable pub compare_ts : Option (Value R.Float) → Option (Value R.Float) → Dict ℤ → Exc Bool
  unfolding known_ts precedes
  compare_ts none ts d = ok false
  compare_ts (some null) ts d = ok false
  compare_ts (some tag) none d = ok false
  compare_ts (some tag) (some null) d = ok false
  compare_ts (some tag) (some ts) d = do known ← known_ts tag d; precedes ts known

  unfoldable pub is_stale : Fields R.Float → Dict ℤ → Exc Bool
  is_stale envelope d = do
    payload ← fields_of (get_or envelope "payload" (obj end))
    compare_ts (lookup payload "tag_id") (lookup payload "ts_utc_ms") d

  -- How a stream ends: the client has gone, an exception, or it waits for more.
  pub data End : Type 0 where
    disconnected waiting : End
    crashed : Exception → End

  pub record Stream : Type 0 where
    pub sent : List (Fields R.Float)
    pub last : End

  -- The loop of `positions_ws`: what the queue gives, each with whether a send would succeed.
  unfoldable pub stream : Dict ℤ → List (Fields R.Float × Bool) → Stream
  stream d [] = record { sent = []; last = waiting }
  stream d ((envelope, connected) ∷ more) =
      let rest = stream d more in
      elim (is_stale envelope d) [
        | raise e ↦ record { sent = []; last = crashed e }
        | ok true ↦ rest
        | ok false ↦
            if connected
            then record rest { sent = envelope ∷ rest.sent }
            else record { sent = []; last = disconnected }
      ]

-- What a connection changes outside itself: the subscribers, and the gauge of connections.
pub record Hub (E : Type 0) : Type 0 where
  pub broadcast : Broadcast E
  pub connections : ℕ

module _ {E : Type 0} where
  -- `WS_ACTIVE_CONNECTIONS.inc()` and `broadcast.subscribe()`
  unfoldable pub open_socket : Hub E → ℕ × Hub E
  open_socket hub =
      let (key, b) = subscribe hub.broadcast in
      (key, record { broadcast = b; connections = hub.connections + 1 })

  -- The `finally` block; a socket is closed once and after it was opened, so the gauge is above 0.
  unfoldable pub close_socket : ℕ → Hub E → Hub E
  close_socket key hub = record {
    broadcast = unsubscribe hub.broadcast key;
    connections = hub.connections - 1;
  }

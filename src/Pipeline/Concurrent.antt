-- ===== src/Pipeline/Concurrent.antt =====
-- What the datagrams of the receiver are in the tables and for the clients of a backend that handles
-- its messages at the same time, in any order, and may end and start again meanwhile.
use mathlib.Core.List.{Perm}
use mathlib.Core.List.Perm
use rtls_stream_visualizer.Base.{◌≡◌, List}
use rtls_stream_visualizer.Base.Dict
use rtls_stream_visualizer.Python.Value.{obj, Fields}
use rtls_stream_visualizer.Python.Runtime.{Runtime, Loaded, loaded}
use rtls_stream_visualizer.Core.Broker.Publisher.{Publisher}
use rtls_stream_visualizer.Core.Server.State.{UdpServer, datagram}
use rtls_stream_visualizer.Backend.Params.{Params}
use rtls_stream_visualizer.Backend.Database.{Storage}
use rtls_stream_visualizer.Backend.Consumer.Accepted.{Stored}
use rtls_stream_visualizer.Backend.Consumer.Delivered.{params_of}
use rtls_stream_visualizer.Backend.Redelivery.{Broker}
use rtls_stream_visualizer.Pipeline.Carried.{Sent, object_of_sent, Carried}

module _ (R : Runtime) (server : UdpServer R.Float) where
  abbrev message_of_sent : Sent R.Float → Loaded R.Float
  message_of_sent s = loaded (obj (object_of_sent R server s))

  -- The envelope is that of an event that was sent, and the row has in each column what the event has
  -- in the field of that name.
  abbrev pub IsOf : Stored R.Float → Sent R.Float → Type 0
  IsOf c s =
      (c.0 ≡ object_of_sent R server s)
      × ((S : Storage R.Float) × (c.1.params ≡ params_of R S server s.datagram s.event s.origin))

  -- The row of an event that was sent.
  abbrev pub IsRowOfSent : Stored R.Float → Type 0
  IsRowOfSent c = ∥ ((s : Sent R.Float) × IsOf c s) ∥₁

  abbrev IsSent : Fields R.Float → Type 0
  IsSent fs = (s : Sent R.Float) × (fs ≡ object_of_sent R server s)

module _ (R : Runtime) (server : UdpServer R.Float) where
  -- The object of a message that was read of one that was sent.
  abbrev SentMessage : Loaded R.Float → Type 0
  SentMessage m = ∥ ((s : Sent R.Float) × (m ≡ message_of_sent R server s)) ∥₁

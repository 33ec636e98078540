-- ===== src/Core/Server/State.antt =====
-- What the UDP server of core/udp/server.py holds, takes and gives.
use rtls_stream_visualizer.Base.{String, Bool, Option, List}
use rtls_stream_visualizer.Base.Int.{ℤ}
use rtls_stream_visualizer.Base.Raise.{Exception}
use rtls_stream_visualizer.Python.Runtime.{Loaded}
use rtls_stream_visualizer.Core.Envelope.{Registry}
use rtls_stream_visualizer.Core.Tracing.Propagator.{Headers, Telemetry}
use rtls_stream_visualizer.Core.Validate.{Validator}

-- The fields of `UdpServer` that its methods read; the parser has no state of its own.
pub record UdpServer (F : Type 0) : Type 1 where
  pub topic : String
  pub validator : Option (Validator F)
  pub has_parser : Bool
  -- The origin of the `JsonStreamNormalizer`.
  pub json_normalizer : Option String
  pub envelope_version : String
  pub envelope_registry : Registry F
  pub event_type : String
  -- What the methods have of OpenTelemetry, in the thread of the loop.
  pub telemetry : Telemetry
  -- `on_decode_error`, with the exception that a call of it raises.
  pub on_decode_error : Option (Exception → Option Exception)

-- What the socket, the clock and the broker give while one datagram is processed.
pub record Datagram (F : Type 0) : Type 0 where
  -- data.decode("utf-8"), none on a UnicodeDecodeError
  pub decoded : Option String
  -- json.loads(data)
  pub loaded_data : Loaded F
  pub source_ip : String
  pub source_port : String
  pub normalized_at_ms : ℤ
  pub ingested_at_ms : ℤ
  -- The exception that `publisher.publish` raises.
  pub publish_error : Option Exception

pub record Published : Type 0 where
  pub topic : String
  pub message : String
  pub headers : Headers

-- What `recvfrom` gives.
pub data Received (F : Type 0) : Type 0 where
  datagram : Datagram F → Received F
  socket_error : Received F

-- What a run of `serve_forever` has done. It ends by an OSError of the socket, or by an exception
-- that escapes from `on_decode_error`.
pub record Served : Type 0 where
  pub published : List Published
  pub failures : List Exception
  pub ended : Bool
  pub escaped : Option Exception

-- ===== src/Pipeline/Traced.antt =====
-- The trace of a position, from stream_generator/main.py over the receiver to the backend, with the
-- carriers of core/tracing.py.
use mathlib.Core.Option
use rtls_stream_visualizer.Base.{String, Option, none, some}
use rtls_stream_visualizer.Base.Dict
use rtls_stream_visualizer.Base.Dict.{Dict}
use rtls_stream_visualizer.Python.Value.{Value, str}
use rtls_stream_visualizer.Python.Runtime.{Runtime}
use rtls_stream_visualizer.Core.Tracing.Propagator.{Propagator}

abbrev or_else {ℓ} : {A : Type ℓ} → Option A → Option A → Option A
or_else none other = other
or_else (some a) other = some a

module _ {F : Type 0} where
  abbrev as_value : Option String → Option (Value F)
  as_value found = Option.map str found

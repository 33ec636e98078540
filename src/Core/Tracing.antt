-- ===== src/Core/Tracing.antt =====
-- core/tracing.py: the trace keys of a JSON object, and the getter and setter of the propagator.
pub mod Laws
pub mod Provider
pub mod Propagator
use rtls_stream_visualizer.Base.{String, Option, none, some, List, [], ◌∷◌, map}
use rtls_stream_visualizer.Base.Dict
use rtls_stream_visualizer.Base.Dict.{Dict}
use rtls_stream_visualizer.Python.Value.{Value, null}
use rtls_stream_visualizer.Python.Runtime.{Runtime, text_of}

-- `_TRACE_KEYS`
abbrev pub trace_keys : List String
trace_keys = "traceparent" ∷ "tracestate" ∷ []

module _ {ℓ} {V : Type ℓ} where
  pop_all : Dict V → List String → Dict V
  pop_all d [] = d
  pop_all d (key ∷ keys) = pop_all (Dict.pop d key) keys

  unfoldable pub strip_trace_keys : Dict V → Dict V
  unfolding pop_all
  strip_trace_keys d = pop_all d trace_keys

  -- `_DictSetter.set`
  unfoldable pub set_carrier : Dict V → String → V → Dict V
  set_carrier carrier key value = Dict.set carrier key value

  -- `_DictGetter.keys`
  unfoldable pub carrier_keys : Dict V → List String
  carrier_keys = map (λ (k, v). k)

-- `_DictGetter.get`: None for a missing key and for null.
module _ (R : Runtime) where
  as_texts : Option (Value R.Float) → Option (List String)
  as_texts none = none
  as_texts (some null) = none
  as_texts (some v) = some (text_of R v ∷ [])

  unfoldable pub get_carrier : Dict (Value R.Float) → String → Option (List String)
  unfolding as_texts
  get_carrier carrier key = as_texts (Dict.get carrier key)

-- ===== src/Core/Tracing/Laws.antt =====
-- What is left of a dict without its trace keys.
use mathlib.Core.Option
use rtls_stream_visualizer.Base.{
  String, ◌≡◌, refl, ◌||◌, Option, none, some, [], ◌∷◌, ◌==◌, if◌then◌else◌, arith,
}
use rtls_stream_visualizer.Python.Value.{Value, str}
use rtls_stream_visualizer.Python.Runtime.{Runtime, text_of}
use rtls_stream_visualizer.Base.Dict
use rtls_stream_visualizer.Base.Dict.{Dict, get-pop}
use rtls_stream_visualizer.Core.Tracing.{strip_trace_keys, get_carrier, as_texts}

module _ {ℓ} {V : Type ℓ} where
  -- Stripping removes the two trace keys and leaves every other key with its value.
  pub get-strip_trace_keys :
      (d : Dict V) (key : String)
      → Dict.get (strip_trace_keys d) key
        ≡ (if "traceparent" == key || "tracestate" == key then none else Dict.get d key)
  unfolding strip_trace_keys
  get-strip_trace_keys d key =
      rw (get-pop (Dict.pop d "traceparent") "tracestate" key, get-pop d "traceparent" key)
        (ground arith)

module _ (R : Runtime) where
  -- What the getter gives of an item that is a text, or not there.
  pub get_carrier-text :
      (carrier : Dict (Value R.Float)) (key : String) (found : Option String)
      → Dict.get carrier key ≡ Option.map str found
      → get_carrier R carrier key ≡ Option.map (λ s. s ∷ []) found
  unfolding get_carrier as_texts text_of
  get_carrier-text carrier key none e = rw e refl
  get_carrier-text carrier key (some s) e = rw e refl

-- ===== src/Core/Tracing/Propagator.antt =====
-- core/tracing.py: the helpers that hand a carrier to the global propagator.
use mathlib.Core.Option
use rtls_stream_visualizer.Base.{String, Bool, ◌≡◌, true, Option, is_some, List, [], ◌∷◌}
use rtls_stream_visualizer.Base.Dict
use rtls_stream_visualizer.Base.Dict.{Dict, NodupKeys}
use rtls_stream_visualizer.Python.Value.{Value}
use rtls_stream_visualizer.Python.Runtime.{Runtime}
use rtls_stream_visualizer.Core.Tracing.{get_carrier}
use rtls_stream_visualizer.Core.Tracing.Provider.{header_carrier}

-- The headers of a message.
abbrev pub Headers : Type 0
Headers = Dict String

-- Pairs that are set on headers, one after another.
unfoldable pub set_all : Headers → Headers → Headers
set_all headers [] = headers
set_all headers ((key, value) ∷ more) = set_all (Dict.set headers key value) more

-- A header as a getter reads it.
abbrev pub texts : Option String → Option (List String)
texts found = Option.map (λ s. s ∷ []) found

-- The global propagator: the pairs that it sets on a carrier for a context, and the context that it
-- reads of a carrier by its getter.
pub record Propagator (C : Type 0) : Type 0 where
  pub injected : C → Headers
  pub extracted : (String → Option (List String)) → C

module _ {C : Type 0} (P : Propagator C) where
  -- `inject_into_headers`
  abbrev pub inject_into_headers : C → Headers → Headers
  inject_into_headers context headers = set_all headers (P.injected context)

  -- `extract_from_headers`
  unfoldable pub extract_from_headers : Option Headers → C
  extract_from_headers headers = P.extracted (λ key. texts (Dict.get (header_carrier headers) key))

  -- `extract_from_dict`
  abbrev pub extract_from_dict : (R : Runtime) → Dict (Value R.Float) → C
  extract_from_dict R carrier = P.extracted (get_carrier R carrier)

-- OpenTelemetry in a thread: its contexts, the one that is current, whether a context is false as a
-- Python value, the context in a span that is started in a context, and the propagator.
pub record Telemetry : Type 1 where
  pub Context : Type 0
  pub current : Context
  pub is_empty : Context → Bool
  pub start_span : Context → Context
  pub propagator : Propagator Context

-- TraceContextTextMapPropagator: it sets each of its two keys at most once, the first always, it reads
-- no other, and it reads back what it has set.
pub record IsTraceContext {C : Type 0} (P : Propagator C) : Type 0 where
  pub distinct : (c : C) → NodupKeys (P.injected c)
  pub sets_parent : (c : C) → is_some (Dict.get (P.injected c) "traceparent") ≡ true
  pub reads :
      (f g : String → Option (List String))
      → f "traceparent" ≡ g "traceparent"
      → f "tracestate" ≡ g "tracestate"
      → P.extracted f ≡ P.extracted g
  pub reads_back : (c : C) → P.extracted (λ key. texts (Dict.get (P.injected c) key)) ≡ c

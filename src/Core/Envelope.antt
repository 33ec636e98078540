-- ===== src/Core/Envelope.antt =====
-- core/envelope: the registry of builders and the builder of version 1.0.
pub mod Laws
use rtls_stream_visualizer.Base.{String, Bool, Option, none, some, [], ◌∷◌}
use rtls_stream_visualizer.Base.Int.{ℤ}
use rtls_stream_visualizer.Base.Dict
use rtls_stream_visualizer.Base.Dict.{Dict}
use rtls_stream_visualizer.Base.Raise.{Exc, ok, raise, value_error}
use rtls_stream_visualizer.Python.Value.{Value, int, bool, integer, str}

-- `EnvelopeContext`; the origin is whatever the payload holds when no header names one.
pub record Context (F : Type 0) : Type 0 where
  pub schema_version : String
  pub event_type : String
  pub origin : Value F
  pub normalized : Bool
  pub ingested_at_ms : ℤ

-- `EnvelopeBuilder`: what a builder of the protocol offers.
pub record Builder (F : Type 0) : Type 0 where
  pub schema_version : String
  pub build : Value F → Context F → Dict (Value F)

-- `EnvelopeRegistry._builders`
abbrev pub Registry : Type 0 → Type 0
Registry F = Dict (Builder F)

module _ {F : Type 0} where
  -- `EnvelopeV1Builder`
  unfoldable pub build_v1 : Value F → Context F → Dict (Value F)
  build_v1 payload context =
      ("schema_version", str "1.0")
      ∷ ("event_type", str context.event_type)
      ∷ ("origin", context.origin)
      ∷ ("normalized", integer (bool context.normalized))
      ∷ ("ingested_at_ms", integer (int context.ingested_at_ms))
      ∷ ("payload", payload)
      ∷ []

  abbrev pub v1_builder : Builder F
  v1_builder = record { schema_version = "1.0"; build = build_v1 }

  unfoldable pub register : Registry F → Builder F → Registry F
  register builders builder = Dict.set builders builder.schema_version builder

  abbrev or_unsupported : Option (Builder F) → Exc (Builder F)
  or_unsupported none = raise value_error
  or_unsupported (some builder) = ok builder

  unfoldable pub get_builder : Registry F → String → Exc (Builder F)
  get_builder builders version = or_unsupported (Dict.get builders version)

  -- `create_default_envelope_registry`
  unfoldable pub default_registry : Registry F
  unfolding register
  default_registry = register [] v1_builder

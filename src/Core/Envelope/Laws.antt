-- ===== src/Core/Envelope/Laws.antt =====
-- What a registry answers after a registration.
use rtls_stream_visualizer.Base.{String, ◌≡◌, ◌==◌, if◌then◌else◌, arith}
use rtls_stream_visualizer.Base.Dict
use rtls_stream_visualizer.Base.Dict.{get-set}
use rtls_stream_visualizer.Base.Raise.{ok, raise, value_error}
use rtls_stream_visualizer.Core.Envelope.{
  Builder, Registry, register, get_builder, default_registry, v1_builder,
}

module _ {F : Type 0} where
  -- A registered builder answers for its own version, in place of an earlier one, and for no other.
  pub get_builder-register :
      (builders : Registry F) (b : Builder F) (version : String)
      → get_builder (register builders b) version
        ≡ (if b.schema_version == version then ok b else get_builder builders version)
  unfolding get_builder register
  get_builder-register builders b version =
      rw (get-set builders b.schema_version version b) (ground arith)

  -- The default registry builds version 1.0 and refuses every other version with a ValueError.
  pub get_builder-default_registry :
      (version : String)
      → get_builder (default_registry {F = F}) version
        ≡ (if "1.0" == version then ok v1_builder else raise value_error)
  unfolding get_builder default_registry Dict.get Dict.set
  get_builder-default_registry version = ground arith

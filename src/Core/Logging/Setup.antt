-- ===== src/Core/Logging/Setup.antt =====
-- Repeated calls of `setup_logging`, as each entry point of the program makes one.
use rtls_stream_visualizer.Base.{◌≡◌, refl, String, Bool, Option, List, [], ◌∷◌}
use rtls_stream_visualizer.Base.Int.{ℤ}
use rtls_stream_visualizer.Base.Dict.{Dict}
use rtls_stream_visualizer.Python.Runtime.{Runtime}
use rtls_stream_visualizer.Core.Logging.{
  LogHandler, RootLogger, formatter_of, wants_json, setup_logging,
}

-- The arguments of a call.
abbrev pub SetupCall : Type 0
SetupCall = ℤ × Option Bool

abbrev pub last_level : ℤ → List SetupCall → ℤ
last_level level [] = level
last_level level ((next, json_format) ∷ calls) = last_level next calls

module _ (R : Runtime) (environ : Dict String) where
  unfoldable pub setup_all : List SetupCall → RootLogger → RootLogger
  unfolding setup_logging
  setup_all [] root = root
  setup_all ((level, json_format) ∷ calls) root =
      setup_all calls (setup_logging R environ level json_format root)

  setup_all_again :
      (calls : List SetupCall) (level : ℤ) (handler : LogHandler) (handlers : List LogHandler)
      → setup_all calls (record { level = level; handlers = handler ∷ handlers })
        ≡ record { level = last_level level calls; handlers = handler ∷ handlers }
  unfolding setup_all
  setup_all_again [] level handler handlers = refl
  setup_all_again ((next, json_format) ∷ calls) level handler handlers =
      setup_all_again calls next handler handlers

  -- However often logging is set up, the root logger has one handler, the one of the first call with
  -- the format that this asked for or that the environment gives, and the level of the last call.
  pub setup_all_lem :
      (level old : ℤ) (json_format : Option Bool) (calls : List SetupCall)
      → setup_all ((level, json_format) ∷ calls) (record { level = old; handlers = [] }) ≡ record {
        level = last_level level calls;
        handlers =
            record { level = level; formatter = formatter_of R (wants_json R environ json_format) }
            ∷ [];
      }
  unfolding setup_all
  setup_all_lem level old json_format calls = setup_all_again calls level _ []

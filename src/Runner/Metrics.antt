-- ===== src/Runner/Metrics.antt =====
-- udp_receiver/main.py: the metrics server, as the environment sets it up.
use rtls_stream_visualizer.Base.{
  String, Bool, not, ◌||◌, ◌==◌, Option, none, some, [], ◌∷◌, if◌then◌else◌,
}
use rtls_stream_visualizer.Base.Int.{ℤ}
use rtls_stream_visualizer.Base.Dict.{Dict}
use rtls_stream_visualizer.Base.Raise.{Exc, ok, ◌>>=◌}
use rtls_stream_visualizer.Python.Runtime.{Runtime, lower}
use rtls_stream_visualizer.Core.Config.{getenv}
use rtls_stream_visualizer.Backend.Settings.{int_or_raise}

abbrev is_off : String → Bool
is_off s = s == "0" || s == "false" || s == "no" || s == "off"

-- `env or os.environ`: an empty mapping counts as none.
abbrev resolved : Option (Dict String) → Dict String → Dict String
resolved none environ = environ
resolved (some []) environ = environ
resolved (some (pair ∷ env)) environ = pair ∷ env

module _ (R : Runtime) where
  unfoldable pub metrics_enabled : Dict String → Bool
  metrics_enabled env = not (is_off (lower R (getenv env "PROMETHEUS_METRICS_ENABLED" "true")))

  -- The address that the server was started on.
  unfoldable pub start_metrics_server :
      Option (Dict String) → Dict String → Exc (Option (String × ℤ))
  start_metrics_server env environ =
      let found = resolved env environ in
      if metrics_enabled found
      then (do
        port ← int_or_raise R (getenv found "PROMETHEUS_METRICS_PORT" "9100")
        ok (some (getenv found "PROMETHEUS_METRICS_HOST" "0.0.0.0", port)))
      else ok none

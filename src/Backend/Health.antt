-- ===== src/Backend/Health.antt =====
-- backend/api/health.py, with `probe_database` of backend/db.py.
pub mod Status
use rtls_stream_visualizer.Base.{
  ℕ, String, Bool, true, false, eqb, Option, none, some, List, [], ◌∷◌, if◌then◌else◌,
}
use rtls_stream_visualizer.Base.Int.{ℤ, pos}
use rtls_stream_visualizer.Base.Raise.{Exc, ok, raise, ◌>>=◌}

pub record HealthResponse : Type 0 where
  pub status_code : ℕ
  pub status : String
  pub database : String

-- `result == (1,)`
abbrev is_one : Option (List ℕ) → Bool
is_one (some (n ∷ [])) = eqb n 1
is_one row = false

-- The row that `SELECT 1` gives, unless the pool or the query raises.
unfoldable pub probe_database : Exc (Option (List ℕ)) → Exc Bool
probe_database fetched = do row ← fetched; ok (is_one row)

-- A probe that raises counts as a database that is not there.
abbrev caught : Exc Bool → Bool
caught (ok b) = b
caught (raise e) = false

unfoldable pub build_health_response : Exc (Option (List ℕ)) → HealthResponse
build_health_response fetched =
    if caught (probe_database fetched)
    then record { status_code = 200; status = "ok"; database = "ok" }
    else record { status_code = 503; status = "degraded"; database = "unavailable" }

-- ===== src/Backend/Health/Status.antt =====
-- When the program calls itself healthy.
use rtls_stream_visualizer.Base.{ℕ, ◌≡◌, ap, Option, none, some, List, [], ◌∷◌, arith}
use mathlib.Core.Logic.{◌↔◌}
use rtls_stream_visualizer.Base.Raise.{Exc, ok, raise}
use rtls_stream_visualizer.Backend.Health.{probe_database, build_health_response}

-- The status is 200 exactly when the query gave the one row that holds 1; any other row, no row and
-- every exception make it 503.
pub build_health_response-status_code :
    (fetched : Exc (Option (List ℕ)))
    → ((build_health_response fetched).status_code ≡ 200) ↔ (fetched ≡ ok (some (1 ∷ [])))
unfolding build_health_response probe_database
build_health_response-status_code (raise e) = ground arith
build_health_response-status_code (ok none) = ground arith
build_health_response-status_code (ok (some [])) = ground arith
build_health_response-status_code (ok (some (n ∷ []))) = (
  λ h. let one : n ≡ 1 = ground arith in ap (λ k. ok (some (k ∷ []))) one,
  λ h. let one : n ≡ 1 = ground arith in ground arith,
)
build_health_response-status_code (ok (some (n ∷ m ∷ l))) = ground arith

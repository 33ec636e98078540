-- ===== src/Backend/Monitor.antt =====
-- backend/app.py: `_prometheus_middleware`, with the metrics of requests of backend/metrics.py.
use rtls_stream_visualizer.Base.{
  ℕ, String, ◌≡◌, refl, ap, ap₂, ◌∙◌, sym, inl, inr, Bool-cases, List, [], ◌∷◌, ◌++◌, map,
  if◌then◌else◌, ◌==◌,
}
use mathlib.Core.List.{append_assoc, append-nil, map-append}
use rtls_stream_visualizer.Base.Raise.{Exc, ok, raise}

-- A request, with the status that `call_next` gives or what it raises.
pub record HttpRequest : Type 0 where
  pub method : String
  pub path : String
  pub response : Exc ℕ

-- The labels of each observation and of each increment, in order.
pub record HttpMetrics : Type 0 where
  pub request_latency : List (String × String)
  pub request_count : List (String × (String × ℕ))

abbrev pub observe : HttpRequest → ℕ → HttpMetrics → HttpMetrics
observe request status m = record {
  request_latency = m.request_latency ++ (request.method, request.path) ∷ [];
  request_count = m.request_count ++ (request.method, (request.path, status)) ∷ [];
}

-- Only what was returned is observed.
abbrev pub after_call : HttpRequest → Exc ℕ → HttpMetrics → Exc ℕ × HttpMetrics
after_call request (ok status) m = (ok status, observe request status m)
after_call request (raise e) m = (raise e, m)

unfoldable pub prometheus_middleware : HttpRequest → HttpMetrics → Exc ℕ × HttpMetrics
prometheus_middleware request m =
    if request.path == "/metrics"
    then (request.response, m)
    else after_call request request.response m

unfoldable pub serve : List HttpRequest → HttpMetrics → HttpMetrics
unfolding prometheus_middleware
serve [] m = m
serve (request ∷ requests) m = serve requests (prometheus_middleware request m).1

-- What is observed of a request.
abbrev pub observed : HttpRequest → Exc ℕ → List (String × (String × ℕ))
observed request (ok status) = (request.method, (request.path, status)) ∷ []
observed request (raise e) = []

unfoldable pub counted : List HttpRequest → List (String × (String × ℕ))
counted [] = []
counted (request ∷ requests) =
    let rest = counted requests in
    if request.path == "/metrics" then rest else observed request request.response ++ rest

abbrev pub timed : List (String × (String × ℕ)) → List (String × String)
timed counts = map (λ c. (c.0, c.1.0)) counts

-- The metrics with these requests counted and timed.
abbrev pub add_counts : List (String × (String × ℕ)) → HttpMetrics → HttpMetrics
add_counts counts m = record {
  request_latency = m.request_latency ++ timed counts;
  request_count = m.request_count ++ counts;
}

metrics_of :
    {m n : HttpMetrics}
    → m.request_latency ≡ n.request_latency
    → m.request_count ≡ n.request_count
    → m ≡ n
metrics_of a b = ap₂ (λ x y. record { request_latency = x; request_count = y }) a b

add_counts-nil : (m : HttpMetrics) → m ≡ add_counts [] m
add_counts-nil m =
    metrics_of (sym (append-nil m.request_latency)) (sym (append-nil m.request_count))

add_counts-add_counts :
    (a b : List (String × (String × ℕ))) (m : HttpMetrics)
    → add_counts b (add_counts a m) ≡ add_counts (a ++ b) m
add_counts-add_counts a b m =
    metrics_of
      (append_assoc m.request_latency (timed a) (timed b)
        ∙ ap (λ l. m.request_latency ++ l)
            (sym (map-append (λ (c : String × (String × ℕ)). (c.0, c.1.0)) a b)))
      (append_assoc m.request_count a b)

after_call-observed :
    (request : HttpRequest) (response : Exc ℕ) (m : HttpMetrics)
    → (after_call request response m).1 ≡ add_counts (observed request response) m
after_call-observed request (ok status) m = refl
after_call-observed request (raise e) m = add_counts-nil m

-- Over any requests, exactly those that are not for the metrics and whose handler returns are
-- counted, once each with their method, path and status, and timed with their method and path, in
-- order.
pub serve-counted :
    (requests : List HttpRequest) (m : HttpMetrics)
    → serve requests m ≡ add_counts (counted requests) m
unfolding serve counted
serve-counted [] m = add_counts-nil m
serve-counted (request ∷ requests) m = elim (Bool-cases (request.path == "/metrics")) [
  | inl own_ ↦ simp own_ (serve-counted requests m)
  | inr other ↦ simp other (
      serve-counted requests (after_call request request.response m).1
      ∙ ap (add_counts (counted requests)) (after_call-observed request request.response m)
      ∙ add_counts-add_counts (observed request request.response) (counted requests) m)
]

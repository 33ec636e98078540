-- ===== src/Backend/App/Routes.antt =====
-- Which endpoint a request reaches.
use mathlib.Core.List.{Permᴰ}
use rtls_stream_visualizer.Base.{
  String, ◌≡◌, refl, sym, ap, ◌∙◌, subst, Bool, true, false, ◌&&◌, ◌==◌, eq_iff, Option, none, some,
  List, [], ◌∷◌, All, if◌then◌else◌, arith,
}
use mathlib.Core.Logic.{◌↔◌}
use rtls_stream_visualizer.Base.Perms.{All-Permᴰ}
use rtls_stream_visualizer.Base.Raise.{Exc, ok, raise, ok_injective}
use rtls_stream_visualizer.Backend.Settings.{BackendConfig}
use rtls_stream_visualizer.Backend.App.{
  Endpoint, Scope, http, websocket, Route, App, build_app, create_app,
}

abbrev same_scope : Scope → Scope → Bool
same_scope (http m) (http n) = m == n
same_scope websocket websocket = true
same_scope a b = false

abbrev pub matches : Scope → String → Route → Bool
matches scope path route = same_scope scope route.scope && path == route.path

-- A request goes to the first route that matches it, as FastAPI documents; none is status 404, or 405.
unfoldable pub resolve : List Route → Scope → String → Option Endpoint
resolve [] scope path = none
resolve (route ∷ routes) scope path =
    let rest = resolve routes scope path in
    if matches scope path route then some route.endpoint else rest

-- No request matches two of the routes.
abbrev pub Apart : Route → Route → Type 0
Apart a b = (scope : Scope) (path : String) → (matches scope path a && matches scope path b) ≡ false

abbrev pub AllApart : List Route → Type 0
AllApart [] = Unit
AllApart (r ∷ rs) = All (Apart r) rs × AllApart rs

Apart-sym : (a b : Route) → Apart a b → Apart b a
Apart-sym a b h scope path = ground (arith, h scope path)

AllApart-Permᴰ : (xs ys : List Route) → Permᴰ xs ys → AllApart xs → AllApart ys
AllApart-Permᴰ _ _ Permᴰ.nil h = h
AllApart-Permᴰ _ _ (Permᴰ.cons {l₁ = xs} {l₂ = ys} x p) (q, h) =
    (subst (λ r. All (Apart r) ys) x (All-Permᴰ _ xs ys p q), AllApart-Permᴰ xs ys p h)
AllApart-Permᴰ _ _ (Permᴰ.swap {a = a} {b = b} {b' = b'} {l = l} x y) ((ab, q), (r, h)) =
    subst (λ u. AllApart (u ∷ b' ∷ l)) y
      (subst (λ v. AllApart (b ∷ v ∷ l)) x ((Apart-sym a b ab, r), (q, h)))
AllApart-Permᴰ _ _ (Permᴰ.trans p q) h = AllApart-Permᴰ _ _ q (AllApart-Permᴰ _ _ p h)

resolve-Permᴰ :
    (xs ys : List Route) (scope : Scope) (path : String)
    → Permᴰ xs ys
    → AllApart xs
    → resolve xs scope path ≡ resolve ys scope path
unfolding resolve
resolve-Permᴰ _ _ scope path Permᴰ.nil h = refl
resolve-Permᴰ _ _ scope path (Permᴰ.cons {a = a} {l₁ = xs} {l₂ = ys} x p) (q, h) =
    subst (λ r. resolve (a ∷ xs) scope path ≡ resolve (r ∷ ys) scope path) x
      (rw (resolve-Permᴰ xs ys scope path p h) refl)
resolve-Permᴰ _ _ scope path (Permᴰ.swap {a = a} {b = b} {b' = b'} {l = l} x y) ((ab, q), rest) =
    subst (λ u. resolve (a ∷ b ∷ l) scope path ≡ resolve (u ∷ b' ∷ l) scope path) y
      (subst (λ v. resolve (a ∷ b ∷ l) scope path ≡ resolve (b ∷ v ∷ l) scope path) x
        (ground (arith, ab scope path)))
resolve-Permᴰ _ _ scope path (Permᴰ.trans p q) h =
    resolve-Permᴰ _ _ scope path p h ∙ resolve-Permᴰ _ _ scope path q (AllApart-Permᴰ _ _ p h)

-- Routes of any endpoint: where they match does not depend on it.
get_route : String → Route
get_route path = record { scope = http "GET"; path = path; endpoint = Endpoint.metrics_endpoint }

socket_route : String → Route
socket_route path = record { scope = websocket; path = path; endpoint = Endpoint.socket_endpoint }

paths-Apart : (a b : String) → (a == b) ≡ false → Apart (get_route a) (get_route b)
unfolding get_route
paths-Apart a b ne (http m) path = ground (arith, eq_iff path a, eq_iff path b, eq_iff a b)
paths-Apart a b ne websocket path = refl

scopes-Apart : (a b : String) → Apart (get_route a) (socket_route b)
unfolding get_route socket_route
scopes-Apart a b (http m) path = ground arith
scopes-Apart a b websocket path = refl

method_of : Scope → String
method_of (http m) = m
method_of websocket = ""

-- The routes of the application, whatever its configuration.
routes-AllApart : (config : BackendConfig) → AllApart (build_app config).routes
unfolding build_app get_route socket_route
routes-AllApart config = (
  (
    paths-Apart "/health" "/metrics" refl,
    (
      paths-Apart "/health" "/api/v1/positions/history" refl,
      (scopes-Apart "/health" "/api/v1/ws/positions", tt),
    ),
  ),
  (
    (
      paths-Apart "/metrics" "/api/v1/positions/history" refl,
      (scopes-Apart "/metrics" "/api/v1/ws/positions", tt),
    ),
    ((scopes-Apart "/api/v1/positions/history" "/api/v1/ws/positions", tt), (tt, tt)),
  ),
)

metrics_route :
    (config : BackendConfig) (scope : Scope) (path : String)
    → (resolve (build_app config).routes scope path ≡ some Endpoint.metrics_endpoint)
      ↔ ((scope ≡ http "GET") × (path ≡ "/metrics"))
unfolding build_app resolve method_of
metrics_route config websocket path = (λ h. absurd (ground arith), λ (s, p). cc)
metrics_route config (http m) path = (
  λ h.
      let own : (m ≡ "GET") × (path ≡ "/metrics") =
        ground (arith, eq_iff m "GET", eq_iff path "/metrics", h) in
      (ap http own.0, own.1),
  λ (s, p).
      let get : m ≡ "GET" = ap method_of s in
      subst (λ n. resolve (build_app config).routes (http n) path ≡ some Endpoint.metrics_endpoint)
        (sym get)
        (subst
          (λ q. resolve (build_app config).routes (http "GET") q ≡ some Endpoint.metrics_endpoint)
          (sym p) refl),
)

created :
    (given : Option BackendConfig) (loaded : Exc BackendConfig) (app : App)
    → create_app given loaded ≡ ok app
    → (config : BackendConfig) × (app ≡ build_app config)
unfolding create_app
created (some config) loaded app h = (config, sym (ok_injective h))
created none (ok config) app h = (config, sym (ok_injective h))
created none (raise e) app h = cc

-- Whatever the configuration: each request reaches the same endpoint in whatever order the routes
-- are registered, so none hides another; and the requests that reach the endpoint of the metrics
-- are exactly those with its path, by the method GET.
pub create_app-resolve :
    (given : Option BackendConfig) (loaded : Exc BackendConfig) (app : App) (routes : List Route)
    (scope : Scope) (path : String)
    → create_app given loaded ≡ ok app
    → Permᴰ app.routes routes
    → (resolve routes scope path ≡ resolve app.routes scope path)
      × ((resolve routes scope path ≡ some Endpoint.metrics_endpoint)
          ↔ ((scope ≡ http "GET") × (path ≡ "/metrics")))
create_app-resolve given loaded app routes scope path made order =
    let (config, same) = created given loaded app made in
    let apart = subst (λ a. AllApart a.routes) (sym same) (routes-AllApart config) in
    let unmoved = sym (resolve-Permᴰ app.routes routes scope path order apart) in
    (
      unmoved,
      subst
          (λ o. (o ≡ some Endpoint.metrics_endpoint) ↔ ((scope ≡ http "GET") × (path ≡ "/metrics")))
          (sym (unmoved ∙ ap (λ (a : App). resolve a.routes scope path) same))
          (metrics_route config scope path),
    )

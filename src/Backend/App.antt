-- ===== src/Backend/App.antt =====
-- `create_app` of backend/app.py with the routers of backend/api, and `main` of backend/main.py.
pub mod Routes
use Prim.Native.String
use rtls_stream_visualizer.Base.{
  String, Bool, true, false, ◌&&◌, ◌==◌, Option, none, some, List, [], ◌∷◌, ◌++◌, map,
  if◌then◌else◌,
}
use rtls_stream_visualizer.Base.Int.{ℤ}
use rtls_stream_visualizer.Base.Raise.{Exc, ok, raise, ◌>>=◌}
use rtls_stream_visualizer.Backend.Broadcast.{Broadcast, new_broadcast}
use rtls_stream_visualizer.Backend.Settings.{BackendConfig}
use rtls_stream_visualizer.Backend.Pool.{ConnectionPool, create_pool}

-- The handlers that routers register.
pub data Endpoint : Type 0 where
  health_endpoint metrics_endpoint history_endpoint socket_endpoint : Endpoint

-- How a request comes: by HTTP with a method, or as a WebSocket.
pub data Scope : Type 0 where
  http : String → Scope
  websocket : Scope

pub record Route : Type 0 where
  pub scope : Scope
  pub path : String
  pub endpoint : Endpoint

-- The router of each module of backend/api.
abbrev pub health_router : List Route
health_router = record { scope = http "GET"; path = "/health"; endpoint = health_endpoint } ∷ []

abbrev pub metrics_router : List Route
metrics_router = record { scope = http "GET"; path = "/metrics"; endpoint = metrics_endpoint } ∷ []

abbrev pub positions_router : List Route
positions_router =
    record { scope = http "GET"; path = "/positions/history"; endpoint = history_endpoint } ∷ []

abbrev pub ws_router : List Route
ws_router = record { scope = websocket; path = "/ws/positions"; endpoint = socket_endpoint } ∷ []

pub data Middleware : Type 0 where
  -- CORSMiddleware with its origins, credentials, methods and headers.
  cors : List String → Bool → List String → List String → Middleware
  -- `_prometheus_middleware`
  prometheus : Middleware
  -- FastAPIInstrumentor
  telemetry : Middleware

-- What is registered with a `FastAPI`, in the order of the calls, and `app.state.config`.
pub record App : Type 0 where
  pub config : BackendConfig
  pub middleware : List Middleware
  pub routes : List Route

unfoldable pub add_middleware : Middleware → App → App
add_middleware layer app = record app { middleware = app.middleware ++ layer ∷ [] }

abbrev pub under : String → Route → Route
under prefix route = record route { path = String.◌++◌ prefix route.path }

unfoldable pub include_router : List Route → String → App → App
include_router router prefix app = record app {
  routes = app.routes ++ map (λ route. under prefix route) router;
}

unfoldable pub build_app : BackendConfig → App
unfolding add_middleware include_router
build_app config =
    let app : App = record { config = config; middleware = []; routes = [] } in
    let with_cors =
      add_middleware (cors ("http://localhost:5173" ∷ []) true ("*" ∷ []) ("*" ∷ [])) app in
    let measured = add_middleware prometheus with_cors in
    let with_health = include_router health_router "" measured in
    let with_metrics = include_router metrics_router "" with_health in
    let with_positions = include_router positions_router "/api/v1" with_metrics in
    let with_ws = include_router ws_router "/api/v1" with_positions in
    add_middleware telemetry with_ws

-- `config or load_backend_config()`
abbrev pub resolved_config : Option BackendConfig → Exc BackendConfig → Exc BackendConfig
resolved_config none loaded = loaded
resolved_config (some config) loaded = ok config

unfoldable pub create_app : Option BackendConfig → Exc BackendConfig → Exc App
unfolding build_app
create_app given loaded = do config ← resolved_config given loaded; ok (build_app config)

-- What `_lifespan` puts into `app.state` before it starts the consumer; `Broadcast()` has 256 places.
pub record AppState (E : Type 0) : Type 0 where
  pub pool : ConnectionPool
  pub broadcast : Broadcast E

unfoldable pub started : {E : Type 0} → App → AppState E
started app = record { pool = create_pool app.config; broadcast = new_broadcast 256 }

-- What uvicorn runs. The module of the application is imported first, which creates it.
pub record Process : Type 0 where
  pub app : App
  pub host : String
  pub port : ℤ

unfoldable pub main : Exc BackendConfig → Exc BackendConfig → Exc Process
unfolding create_app
main imported loaded = do
  app ← create_app none imported
  config ← loaded
  ok (record { app = app; host = config.api_host; port = config.api_port })

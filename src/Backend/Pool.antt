-- ===== src/Backend/Pool.antt =====
-- backend/db.py: the connection pool of the backend, and a connection borrowed from it.
pub mod Borrowed
use rtls_stream_visualizer.Base.{ℕ, ◌+◌, ◌-◌, String, Bool, Option, List, ltb, if◌then◌else◌}
use rtls_stream_visualizer.Base.Raise.{Exception, Exc, ok, raise, db_error}
use rtls_stream_visualizer.Backend.Settings.{BackendConfig}
use rtls_stream_visualizer.Backend.Health.{HealthResponse, build_health_response}

-- `_MIN_POOL_SIZE`, `_MAX_POOL_SIZE`, and `_POOL_TIMEOUT` in seconds.
abbrev pub min_pool_size : ℕ
min_pool_size = 4

abbrev pub max_pool_size : ℕ
max_pool_size = 20

abbrev pub pool_timeout : ℕ
pool_timeout = 10

-- `ConnectionPool` with the number of its connections that are borrowed.
pub record ConnectionPool : Type 0 where
  pub conninfo : String
  pub min_size : ℕ
  pub max_size : ℕ
  pub timeout : ℕ
  pub borrowed : ℕ

unfoldable pub create_pool : BackendConfig → ConnectionPool
create_pool config = record {
  conninfo = config.dsn;
  min_size = min_pool_size;
  max_size = max_pool_size;
  timeout = pool_timeout;
  borrowed = 0;
}

-- The connection that a block ends with is given back, whatever the block does.
abbrev pub give_back {ℓ} : {A : Type ℓ} → Exc A × ConnectionPool → Exc A × ConnectionPool
give_back (r, pool) = (r, record pool { borrowed = pool.borrowed - 1 })

-- `with get_connection(pool) as connection:` around a block, which may borrow more. psycopg_pool
-- documents that the connection is given back at the end of the block, and that a pool that has no
-- connection left raises PoolTimeout, unless one is given back within the timeout: `frees` says so.
unfoldable pub get_connection {ℓ} :
    {A : Type ℓ}
    → Bool
    → (ConnectionPool → Exc A × ConnectionPool)
    → ConnectionPool
    → Exc A × ConnectionPool
get_connection frees block pool =
    let ran = give_back (block (record pool { borrowed = pool.borrowed + 1 })) in
    let waited = give_back (block pool) in
    if ltb pool.borrowed pool.max_size
    then ran
    else (if frees then waited else (raise db_error, pool))

-- `health_check` of backend/api/health.py; `query` is what SELECT 1 gives on a connection.
unfoldable pub health_check :
    Bool → Exc (Option (List ℕ)) → ConnectionPool → HealthResponse × ConnectionPool
unfolding get_connection
health_check frees query pool =
    let (fetched, after) = get_connection frees (λ p. (query, p)) pool in
    (build_health_response fetched, after)

-- ===== src/Backend/Queries.antt =====
-- backend/repository/queries.py: the SQL files, read once each.
pub mod Cached
use rtls_stream_visualizer.Base.{String, Option, none, some, List, [], ◌∷◌}
use rtls_stream_visualizer.Base.Dict
use rtls_stream_visualizer.Base.Dict.{Dict}
use rtls_stream_visualizer.Base.Raise.{Exc, ok, raise, os_error}
use rtls_stream_visualizer.Python.Text.{strip}

-- The texts of the files of the directory by name, as they are at one time.
abbrev pub Files : Type 0
Files = String → Option String

-- A miss of the cache; an exception is not kept.
unfoldable pub read_sql : Option String → String → Dict String → Exc String × Dict String
read_sql none name cache = (raise os_error, cache)
read_sql (some text) name cache = (ok (strip text), Dict.set cache name (strip text))

-- `load_sql` with its `lru_cache`, which has no bound.
unfoldable pub load_sql : Files → String → Dict String → Exc String × Dict String
unfolding read_sql
load_sql files name cache = elim (Dict.get cache name) [
  | some text ↦ (ok text, cache)
  | none ↦ read_sql (files name) name cache
]

-- Calls one after another, each with the files as they are then.
unfoldable pub load_all : List (Files × String) → Dict String → Dict String
unfolding load_sql
load_all [] cache = cache
load_all ((files, name) ∷ calls) cache = load_all calls (load_sql files name cache).1

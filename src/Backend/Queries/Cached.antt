-- ===== src/Backend/Queries/Cached.antt =====
-- A query keeps the text that it was first read with.
use rtls_stream_visualizer.Base.{
  String, ◌≡◌, refl, ap, Option, none, some, Option-cases, inl, inr, List, [], ◌∷◌, eq_iff, arith,
}
use rtls_stream_visualizer.Base.Dict
use rtls_stream_visualizer.Base.Dict.{Dict, get-set}
use rtls_stream_visualizer.Base.Raise.{ok}
use rtls_stream_visualizer.Python.Text.{strip}
use rtls_stream_visualizer.Backend.Queries.{Files, read_sql, load_sql, load_all}

read_sql-kept :
    (found : Option String) (name other text : String) (cache : Dict String)
    → Dict.get cache name ≡ none
    → Dict.get cache other ≡ some text
    → Dict.get (read_sql found name cache).1 other ≡ some text
unfolding read_sql
read_sql-kept none name other text cache absent kept = kept
read_sql-kept (some new) name other text cache absent kept =
    rw (get-set cache name other (strip new)) (ground (arith, eq_iff name other, absent, kept))

load_sql-kept :
    (files : Files) (name other text : String) (cache : Dict String)
    → Dict.get cache other ≡ some text
    → Dict.get (load_sql files name cache).1 other ≡ some text
unfolding load_sql
load_sql-kept files name other text cache kept = elim (Option-cases (Dict.get cache name)) [
  | inl absent ↦
      rw (load_sql, absent) (read_sql-kept (files name) name other text cache absent kept)
  | inr (found, present) ↦ rw (load_sql, present) kept
]

load_all-kept :
    (calls : List (Files × String)) (name text : String) (cache : Dict String)
    → Dict.get cache name ≡ some text
    → Dict.get (load_all calls cache) name ≡ some text
unfolding load_all
load_all-kept [] name text cache kept = kept
load_all-kept ((files, called) ∷ calls) name text cache kept =
    load_all-kept calls name text (load_sql files called cache).1
      (load_sql-kept files called name text cache kept)

read_sql-get :
    (found : Option String) (name text : String) (cache : Dict String)
    → (read_sql found name cache).0 ≡ ok text
    → Dict.get (read_sql found name cache).1 name ≡ some text
unfolding read_sql
read_sql-get none name text cache h = cc
read_sql-get (some new) name text cache h =
    rw (get-set cache name name (strip new)) (ground (arith, eq_iff name name, h))

load_sql-get :
    (files : Files) (name text : String) (cache : Dict String)
    → (load_sql files name cache).0 ≡ ok text
    → Dict.get (load_sql files name cache).1 name ≡ some text
unfolding load_sql
load_sql-get files name text cache = elim (Option-cases (Dict.get cache name)) [
  | inl absent ↦ rw (load_sql, absent) (read_sql-get (files name) name text cache)
  | inr (found, present) ↦ rw (load_sql, present) (λ h. ground (arith, present, h))
]

read_again :
    (files : Files) (name text : String) (cache : Dict String)
    → Dict.get cache name ≡ some text
    → load_sql files name cache ≡ (ok text, cache)
unfolding load_sql
read_again files name text cache kept = rw (load_sql, kept) refl

-- Once a query was loaded, each later call gives the same text, whatever becomes of the files and
-- whatever else is loaded meanwhile.
pub load_sql-again :
    (files now : Files) (name text : String) (calls : List (Files × String)) (cache : Dict String)
    → (load_sql files name cache).0 ≡ ok text
    → (load_sql now name (load_all calls (load_sql files name cache).1)).0 ≡ ok text
load_sql-again files now name text calls cache h =
    let later = load_all calls (load_sql files name cache).1 in
    ap (λ o. o.0)
      (read_again now name text later (
        load_all-kept calls name text (load_sql files name cache).1
          (load_sql-get files name text cache h)))

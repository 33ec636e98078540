-- ===== src/Core/Config/Lookup.antt =====
-- `_get_or_use_default` against the values that a path of keys leads to.
use mathlib.Core.Option.{some-injective}
use rtls_stream_visualizer.Base.{
  String, ◌≡◌, refl, ◌⊎◌, inl, inr, Option-cases, Option, none, some, List, [], ◌∷◌, arith,
}
use rtls_stream_visualizer.Base.Raise.{Exc, ok, raise, type_error}
use rtls_stream_visualizer.Python.Value.{Value, null, integer, float, str, arr, obj, lookup}
use rtls_stream_visualizer.Core.Config.{walk, typed, get_or_use_default}

module _ {F : Type 0} where
  -- The keys lead from a value to another, through mappings.
  abbrev pub Leads : Value F → List String → Value F → Type 0
  Leads v [] w = v ≡ w
  Leads (obj fs) (key ∷ path) w = (u : Value F) × (lookup fs key ≡ some u) × Leads u path w
  Leads v (key ∷ path) w = ⊥

  -- What is found at the path, if it has the type; the default, if nothing is found; else a
  -- TypeError.
  abbrev pub Answer :
      {A : Type 0} → (Value F → Option A) → Value F → List String → A → Exc A → Type 0
  Answer as_type config path default (ok a) =
      ((w : Value F) × Leads config path w × (as_type w ≡ some a))
      ⊎ (((w : Value F) → ¬ Leads config path w) × (a ≡ default))
  Answer as_type config path default (raise e) =
      (e ≡ type_error) × (w : Value F) × Leads config path w × (as_type w ≡ none)

  walk-Leads : (path : List String) (v w : Value F) → walk v path ≡ some w → Leads v path w
  unfolding walk
  walk-Leads [] v w h = some-injective _ _ h
  walk-Leads (key ∷ path) (obj fs) w h = elim (Option-cases (lookup fs key)) [
    | inl e ↦ ground arith
    | inr (u, e) ↦ (u, e, walk-Leads path u w (ground arith))
  ]
  walk-Leads (key ∷ path) null w h = ground arith
  walk-Leads (key ∷ path) (integer n) w h = ground arith
  walk-Leads (key ∷ path) (float x) w h = ground arith
  walk-Leads (key ∷ path) (str s) w h = ground arith
  walk-Leads (key ∷ path) (arr vs) w h = ground arith

  not-Leads : (path : List String) (v w : Value F) → walk v path ≡ none → ¬ Leads v path w
  unfolding walk
  not-Leads [] v w h leads = ground arith
  not-Leads (key ∷ path) (obj fs) w h (u, e, leads) = not-Leads path u w (ground arith) leads
  not-Leads (key ∷ path) null w h leads = leads
  not-Leads (key ∷ path) (integer n) w h leads = leads
  not-Leads (key ∷ path) (float x) w h leads = leads
  not-Leads (key ∷ path) (str s) w h leads = leads
  not-Leads (key ∷ path) (arr vs) w h leads = leads

  typed-Answer :
      {A : Type 0} (as_type : Value F → Option A) (config : Value F) (path : List String)
      (default : A) (found : Option (Value F))
      → walk config path ≡ found
      → Answer as_type config path default (typed as_type default found)
  unfolding typed
  typed-Answer as_type config path default none h = inr (λ w. not-Leads path config w h, refl)
  typed-Answer as_type config path default (some w) h = elim (Option-cases (as_type w)) [
    | inl e ↦ simp e (refl, w, walk-Leads path config w h, e)
    | inr (a, e) ↦ simp e (inl (w, walk-Leads path config w h, e))
  ]

  -- A lookup in the configuration gives the value at its path if that has the type of the default,
  -- and the default if the path leads nowhere; a value of another type is a TypeError.
  pub get_or_use_default-Answer :
      {A : Type 0} (as_type : Value F → Option A) (config : Value F) (path : List String)
      (default : A)
      → Answer as_type config path default (get_or_use_default as_type config path default)
  unfolding get_or_use_default
  get_or_use_default-Answer as_type config path default =
      typed-Answer as_type config path default (walk config path) refl

-- ===== src/Runner/Generator.antt =====
-- stream_generator/main.py: `_inject_trace_context`. Objects are dicts in a store, an object is named
-- by its place there, so that two names of one object are told from a copy.
pub mod Copies
pub mod Program
pub mod Streams
use rtls_stream_visualizer.Base.{
  ℕ, zero, suc, String, Option, none, some, List, [], ◌∷◌, ◌++◌, length, get_elem?,
}
use rtls_stream_visualizer.Base.Dict
use rtls_stream_visualizer.Base.Dict.{Dict}
use rtls_stream_visualizer.Python.Value.{Value, str}

abbrev pub Store : Type 0 → Type 0
Store F = List (Dict (Value F))

module _ {F : Type 0} where
  unfoldable pub write : ℕ → Dict (Value F) → Store F → Store F
  write place d [] = []
  write zero d (old ∷ store) = d ∷ store
  write (suc place) d (old ∷ store) = old ∷ write place d store

  -- What the propagator sets on a carrier, in order.
  unfoldable pub inject : Dict (Value F) → List (String × String) → Dict (Value F)
  inject carrier [] = carrier
  inject carrier ((key, value) ∷ more) = inject (Dict.set carrier key (str value)) more

  abbrev pub content : Option (Dict (Value F)) → Dict (Value F)
  content none = []
  content (some d) = d

  -- copy.copy(obj): a new object with the same items.
  unfoldable pub copied : ℕ → Store F → ℕ × Store F
  copied obj store = (length store, store ++ content (get_elem? store obj) ∷ [])

  -- `inject_into_dict`
  unfoldable pub inject_into_dict : List (String × String) → ℕ → Store F → Store F
  unfolding write
  inject_into_dict context obj store =
      write obj (inject (content (get_elem? store obj)) context) store

  unfoldable pub inject_trace_context : List (String × String) → List ℕ → Store F → List ℕ × Store F
  unfolding copied inject_into_dict
  inject_trace_context context [] store = ([], store)
  inject_trace_context context (obj ∷ objects) store =
      let (clone, with_clone) = copied obj store in
      let (clones, end) =
        inject_trace_context context objects (inject_into_dict context clone with_clone) in
      (clone ∷ clones, end)

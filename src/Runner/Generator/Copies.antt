-- ===== src/Runner/Generator/Copies.antt =====
-- The objects of the caller, and their copies with a trace context.
use mathlib.Core.List.{append-nil, append_assoc}
use rtls_stream_visualizer.Base.{
  ℕ, zero, suc, ◌<◌, ◌≡◌, refl, sym, ap, ap₂, ◌∙◌, String, some, List, [], ◌∷◌, ◌++◌, map, All,
  length, length-append, get_elem?, arith, subst,
}
use rtls_stream_visualizer.Base.Dict.{Dict}
use rtls_stream_visualizer.Python.Value.{Value}
use rtls_stream_visualizer.Runner.Generator.{
  Store, content, write, inject, copied, inject_into_dict, inject_trace_context,
}

-- So many places from one on.
abbrev pub places : ℕ → List ℕ → List ℕ
places next [] = []
places next (obj ∷ objects) = next ∷ places (suc next) objects

All-lt_suc : (n : ℕ) (objects : List ℕ) → All (λ o. o < n) objects → All (λ o. o < suc n) objects
All-lt_suc n [] h = tt
All-lt_suc n (o ∷ objects) (p, h) = (omega arith, All-lt_suc n objects h)

module _ {F : Type 0} where
  -- Cloning an object and injecting into the clone adds one object at the end.
  write-end :
      (store : Store F) (d d' : Dict (Value F))
      → write (length store) d (store ++ d' ∷ []) ≡ store ++ d ∷ []
  unfolding write
  write-end [] d d' = refl
  write-end (x ∷ store) d d' = ap (◌∷◌ x) (write-end store d d')

  get_elem?-end :
      (store : Store F) (d : Dict (Value F)) → get_elem? (store ++ d ∷ []) (length store) ≡ some d
  get_elem?-end [] d = refl
  get_elem?-end (x ∷ store) d = get_elem?-end store d

  get_elem?-append :
      (store : Store F) (d : Dict (Value F)) (obj : ℕ)
      → obj < length store
      → get_elem? (store ++ d ∷ []) obj ≡ get_elem? store obj
  get_elem?-append [] d obj h = ground arith
  get_elem?-append (x ∷ store) d zero h = refl
  get_elem?-append (x ∷ store) d (suc obj) h = get_elem?-append store d obj (omega arith)

  -- What a clone of an object is to hold.
  abbrev pub traced : List (String × String) → Store F → ℕ → Dict (Value F)
  traced context store obj = inject (content (get_elem? store obj)) context

  inject_into_dict-copied :
      (context : List (String × String)) (obj : ℕ) (store : Store F)
      → inject_into_dict context (length store) (copied obj store).1
        ≡ store ++ traced context store obj ∷ []
  unfolding copied inject_into_dict
  inject_into_dict-copied context obj store =
      rw (get_elem?-end store (content (get_elem? store obj))) (write-end store _ _)

  map-traced :
      (context : List (String × String)) (objects : List ℕ) (store : Store F) (d : Dict (Value F))
      → All (λ o. o < length store) objects
      → map (traced context (store ++ d ∷ [])) objects ≡ map (traced context store) objects
  map-traced context [] store d h = refl
  map-traced context (o ∷ objects) store d (p, h) =
      ap₂ ◌∷◌ (ap (λ e. inject (content e) context) (get_elem?-append store d o p))
        (map-traced context objects store d h)

  length-end :
      (store : Store F) (d : Dict (Value F)) → length (store ++ d ∷ []) ≡ suc (length store)
  length-end store d = omega (arith, length-append store (d ∷ []))

  -- The objects of the caller stay as they are: the results are new objects, one for each object in
  -- order, each with the items of its object and what the propagator sets on these, also where one
  -- object is in the list twice.
  pub inject_trace_context_lem :
      (context : List (String × String)) (objects : List ℕ) (store : Store F)
      → All (λ o. o < length store) objects
      → inject_trace_context context objects store
        ≡ (places (length store) objects, store ++ map (traced context store) objects)
  unfolding inject_trace_context
  inject_trace_context_lem context [] store h = ap (λ s. ([], s)) (sym (append-nil store))
  inject_trace_context_lem context (obj ∷ objects) store (p, h) =
      let clone : Dict (Value F) = traced context store obj in
      let more : Store F = store ++ clone ∷ [] in
      let fits : All (λ o. o < length more) objects =
        subst (λ n. All (λ o. o < n) objects) (sym (length-end store clone))
          (All-lt_suc (length store) objects h) in
      ap (λ (o : List ℕ × Store F). (length store ∷ o.0, o.1))
        (ap (inject_trace_context context objects) (inject_into_dict-copied context obj store)
          ∙ inject_trace_context_lem context objects more fits)
      ∙ ap₂ (λ n l. (length store ∷ places n objects, l)) (length-end store clone)
          (append_assoc store (clone ∷ []) (map (traced context more) objects)
            ∙ ap (λ l. store ++ clone ∷ l) (map-traced context objects store clone h))

-- ===== src/Runner/Generator/Streams.antt =====
-- What a file is sent as.
use mathlib.Core.List.{append_assoc, map-map}
use rtls_stream_visualizer.Base.{
  ℕ, suc, ◌≤◌, ◌+◌, ◌<◌, ◌≡◌, refl, sym, ap, ap₂, ◌∙◌, subst, String, false, Option, some, List, [],
  ◌∷◌, ◌++◌, map, length, length-append, get_elem?, arith, All,
}
use rtls_stream_visualizer.Base.Int.{ℤ, pos, ltbℤ}
use rtls_stream_visualizer.Base.Dict.{Dict}
use rtls_stream_visualizer.Base.Raise.{Exception, Exc, ok}
use rtls_stream_visualizer.Python.Value.{Value, obj, of_entries}
use rtls_stream_visualizer.Python.Runtime.{Runtime}
use rtls_stream_visualizer.Core.Config.Types.{AppConfig}
use rtls_stream_visualizer.Core.Validate.{
  SchemaError, Validator, ValidatedObject, ValidationError, get_validated_objects_from_file,
}
use rtls_stream_visualizer.Core.Client.{send}
use rtls_stream_visualizer.Core.Client.Batches.{Sends, send-Sends}
use rtls_stream_visualizer.Runner.Generator.{Store, content, inject, inject_trace_context}
use rtls_stream_visualizer.Runner.Generator.Copies.{traced, places, inject_trace_context_lem}
use rtls_stream_visualizer.Runner.Generator.Program.{
  nothing_sent, as_dicts, names, value_at, open_validator, main,
}

module _ {F : Type 0} where
  get_elem?-middle :
      (before : Store F) (d : Dict (Value F)) (after : Store F)
      → get_elem? (before ++ d ∷ after) (length before) ≡ some d
  get_elem?-middle [] d after = refl
  get_elem?-middle (x ∷ before) d after = get_elem?-middle before d after

  names-suc :
      (before : Store F) (d : Dict (Value F)) → suc (length before) ≡ length (before ++ d ∷ [])
  names-suc before d = omega (arith, length-append before (d ∷ []))

  -- What stands at the places of the last objects.
  map-names {ℓ} :
      {A : Type ℓ} (f : Dict (Value F) → A) (before after : Store F)
      → map (λ i. f (content (get_elem? (before ++ after) i))) (names (length before) after)
        ≡ map f after
  map-names f before [] = refl
  map-names f before (d ∷ after) =
      let at : Store F → ℕ → _ = λ store i. f (content (get_elem? store i)) in
      ap₂ ◌∷◌ (ap (λ o. f (content o)) (get_elem?-middle before d after)) (
        ap₂ (λ store n. map (at store) (names n after)) (sym (append_assoc before (d ∷ []) after))
          (names-suc before d)
        ∙ map-names f (before ++ d ∷ []) after)

  places-names :
      (n m : ℕ) (store more : Store F)
      → length store ≡ length more
      → places n (names m store) ≡ names n more
  places-names n m [] [] h = refl
  places-names n m [] (e ∷ more) h = ground arith
  places-names n m (d ∷ store) [] h = ground arith
  places-names n m (d ∷ store) (e ∷ more) h =
      ap (◌∷◌ n) (places-names (suc n) (suc m) store more (omega arith))

  names-All : (n m : ℕ) (store : Store F) → n + length store ≤ m → All (λ o. o < m) (names n store)
  names-All n m [] h = tt
  names-All n m (d ∷ store) h = (omega arith, names-All (suc n) m store (omega arith))

  length-map-inject :
      (context : List (String × String)) (store : Store F)
      → length (map (λ d. inject d context) store) ≡ length store
  length-map-inject context [] = refl
  length-map-inject context (d ∷ store) = ap suc (length-map-inject context store)

  -- The clones are the objects with the trace context, in order.
  clones_of :
      (context : List (String × String)) (store : Store F)
      → map
          (value_at (inject_trace_context context (names 0 store) store).1)
          (inject_trace_context context (names 0 store) store).0
        ≡ map (λ d. obj (of_entries (inject d context))) store
  clones_of context store =
      let injected = map (λ d. inject d context) store in
      let traced_are : map (traced context store) (names 0 store) ≡ injected =
        map-names (λ d. inject d context) [] store in
      let made : inject_trace_context context (names 0 store) store
          ≡ (names (length store) injected, store ++ injected) =
        inject_trace_context_lem context (names 0 store) store
          (names-All 0 (length store) store (omega arith))
        ∙ ap₂ (λ (p : List ℕ) (l : Store F). (p, store ++ l))
            (places-names (length store) 0 store injected (sym (length-map-inject context store)))
            traced_are in
      ap (λ (o : List ℕ × Store F). map (value_at o.1) o.0) made
      ∙ map-names (λ d. obj (of_entries d)) store injected
      ∙ map-map (λ d. obj (of_entries d)) (λ d. inject d context) store

module _ (R : Runtime) (sendto : ℕ → Option Exception) where
  -- A run whose configuration and schema are read, with a file whose valid objects are dicts, sends
  -- these in batches of at least one object and with a pause that is not negative: in order, each with
  -- the trace context set on it, up to the first datagram that the socket refuses. Its client has the
  -- address that was given, and is closed in any case.
  pub main-Sends :
      (config : Exc (AppConfig R.Float)) (schema : Exc (Value R.Float → List SchemaError))
      (V : Validator R.Float) (context : List (String × String)) (source : List String)
      (ip : String) (port : ℤ) (objects : List (ValidatedObject R.Float))
      (errors : List ValidationError) (store : Store R.Float) (batch_size : ℕ) (time : ℤ)
      → open_validator config schema ≡ ok V
      → get_validated_objects_from_file R V source ≡ ok (objects, errors)
      → as_dicts objects ≡ ok store
      → 0 < batch_size
      → ltbℤ time (pos 0) ≡ false
      → Sends R sendto (map (λ d. obj (of_entries (inject d context))) store) nothing_sent (
        (main R sendto config schema context source ip port batch_size time).result,
        (main R sendto config schema context source ip port batch_size time).sent,
      )
        × ((main R sendto config schema context source ip port batch_size time).client
            ≡ some (record { ip = ip; port = port; is_open = false }))
  unfolding main
  main-Sends config schema V context source ip port objects errors store batch_size time opened
        valid dicts above pause_ok =
      rw (opened, valid, dicts)
        (
          subst
              (λ l. Sends R sendto l nothing_sent (
                send R sendto
                  (map (value_at (inject_trace_context context (names 0 store) store).1)
                    (inject_trace_context context (names 0 store) store).0)
                  batch_size time nothing_sent))
              (clones_of context store)
              (send-Sends R sendto _ batch_size time nothing_sent above pause_ok),
          refl,
        )

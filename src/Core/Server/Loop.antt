-- ===== src/Core/Server/Loop.antt =====
-- `serve_forever`: what becomes of the datagrams.
use rtls_stream_visualizer.Base.{
  ◌≡◌, refl, Option, none, some, List, [], ◌∷◌, ◌++◌, map, arith, true, inl, inr, Option-cases, ap,
  ◌∙◌,
}
use rtls_stream_visualizer.Base.Raise.{Exception, Exc, ok, raise}
use rtls_stream_visualizer.Python.Runtime.{Runtime}
use rtls_stream_visualizer.Core.Server.State.{
  UdpServer, Datagram, Published, Received, datagram, socket_error, Served,
}
use rtls_stream_visualizer.Core.Server.{
  handle, handle_processing_error, absorb, serve_one, serve_forever,
}
use mathlib.Core.List.{append-nil, append_assoc}

-- The results that are values, and the exceptions, each in order.
abbrev pub values {ℓ} : {A : Type ℓ} → List (Exc A) → List A
values [] = []
values (ok a ∷ l) = a ∷ values l
values (raise e ∷ l) = values l

abbrev pub exceptions {ℓ} : {A : Type ℓ} → List (Exc A) → List Exception
exceptions [] = []
exceptions (ok a ∷ l) = exceptions l
exceptions (raise e ∷ l) = e ∷ exceptions l

-- Every call of the error callback returns.
pub record IsQuiet {F : Type 0} (server : UdpServer F) : Type 0 where
  pub returns :
      (callback : Exception → Option Exception) (e : Exception)
      → server.on_decode_error ≡ some callback
      → callback e ≡ none

-- The state after one more result, and after a list of them.
abbrev add : Served → Exc Published → Served
add s (ok p) = record s { published = s.published ++ p ∷ [] }
add s (raise e) = record s { failures = s.failures ++ e ∷ [] }

abbrev pub add_all : Served → List (Exc Published) → Served
add_all s rs = record s {
  published = s.published ++ values rs;
  failures = s.failures ++ exceptions rs;
}

add_all-cons :
    (s : Served) (r : Exc Published) (rs : List (Exc Published))
    → add_all (add s r) rs ≡ add_all s (r ∷ rs)
add_all-cons s (ok p) rs = simp append_assoc
add_all-cons s (raise e) rs = simp append_assoc

escaped-add : (s : Served) (r : Exc Published) → (add s r).escaped ≡ s.escaped
escaped-add s (ok p) = refl
escaped-add s (raise e) = refl

module _ (R : Runtime) (server : UdpServer R.Float) (H : IsQuiet server) where
  handle_processing_error-none : (e : Exception) → handle_processing_error R server e ≡ none
  unfolding handle_processing_error
  handle_processing_error-none e = elim (Option-cases server.on_decode_error) [
    | inl none_set ↦ rw none_set
    | inr (callback, set) ↦ rw set (H.returns callback e set)
  ]

  absorb-add : (s : Served) (r : Exc Published) → s.escaped ≡ none → absorb R server s r ≡ add s r
  unfolding absorb
  absorb-add s (ok p) h = refl
  absorb-add s (raise e) h = ground (arith, handle_processing_error-none e)

  -- While the error callback returns, the server takes the datagrams in order up to the first error
  -- of the socket and stops there: the results of the ones that were handled are published, each
  -- once, and each of the others is reported once, both in the order of arrival.
  pub serve_forever_lem :
      (s : Served) (ds : List (Datagram R.Float)) (more : List (Received R.Float))
      → s.escaped ≡ none
      → serve_forever R server s (map datagram ds ++ socket_error ∷ more)
        ≡ (record (add_all s (map (handle R server) ds)) { ended = true })
  unfolding serve_forever serve_one
  serve_forever_lem s [] more h = simp append-nil
  serve_forever_lem s (d ∷ ds) more h =
      let r = handle R server d in
      let e = escaped-add s r ∙ h in
      rw (absorb-add s r h, e, serve_forever)
        (rw (absorb-add s r h) (
          serve_forever_lem (add s r) ds more e
          ∙ ap (λ (t : Served). record t { ended = true })
              (add_all-cons s r (map (handle R server) ds))))

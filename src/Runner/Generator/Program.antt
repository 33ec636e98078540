-- ===== src/Runner/Generator/Program.antt =====
-- `main` of stream_generator/main.py: a file of objects is validated, traced and sent, and the socket
-- is closed.
use rtls_stream_visualizer.Base.{ℕ, suc, String, Option, none, some, List, [], ◌∷◌, map, get_elem?}
use rtls_stream_visualizer.Base.Int.{ℤ}
use rtls_stream_visualizer.Base.Raise.{Exception, Exc, ok, raise, type_error, ◌>>=◌}
use rtls_stream_visualizer.Python.Value.{Value, obj, of_entries, entries}
use rtls_stream_visualizer.Python.Runtime.{Runtime}
use rtls_stream_visualizer.Core.Config.Types.{AppConfig}
use rtls_stream_visualizer.Core.Validate.{
  SchemaError, Validator, ValidatedObject, ValidationError, get_validated_objects_from_file,
}
use rtls_stream_visualizer.Core.Client.{
  Sent, UdpClient, new_client, enter_client, exit_client, send,
}
use rtls_stream_visualizer.Runner.Generator.{Store, content, inject_trace_context}

-- What a run has sent, how it ended, and the client that it has made.
pub record Run : Type 0 where
  pub sent : Sent
  pub result : Exc (Unit {0})
  pub client : Option UdpClient

abbrev pub nothing_sent : Sent
nothing_sent = record { datagrams = []; sleeps = [] }

module _ {F : Type 0} where
  -- The objects as the store has them; an item of what is no dict cannot be set.
  abbrev pub cons_dict : Value F → Exc (Store F) → Exc (Store F)
  cons_dict (obj fs) (ok store) = ok (entries fs ∷ store)
  cons_dict (obj fs) (raise e) = raise e
  cons_dict v store = raise type_error

  unfoldable pub as_dicts : List (ValidatedObject F) → Exc (Store F)
  as_dicts [] = ok []
  as_dicts (object ∷ objects) = cons_dict object.content (as_dicts objects)

  -- The places of objects that stand one after another.
  abbrev pub names : ℕ → Store F → List ℕ
  names next [] = []
  names next (d ∷ store) = next ∷ names (suc next) store

  abbrev pub value_at : Store F → ℕ → Value F
  value_at store place = obj (of_entries (content (get_elem? store place)))

-- A run that raises before there is a client.
abbrev stopped : Exception → Run
stopped e = record { sent = nothing_sent; result = raise e; client = none }

-- The validator of the configuration, whose schema is read from a file.
abbrev pub open_validator :
    {F : Type 0} → Exc (AppConfig F) → Exc (Value F → List SchemaError) → Exc (Validator F)
open_validator config schema = do
  c ← config
  errors ← schema
  ok (record { origin = c.validation.origin; schema_errors = errors })

module _ (R : Runtime) (sendto : ℕ → Option Exception) where
  -- The body of the `with`.
  abbrev pub send_traced :
      List (String × String) → ℕ → ℤ → Exc (Store R.Float) → Exc (Unit {0}) × Sent
  send_traced context batch_size time (raise e) = (raise e, nothing_sent)
  send_traced context batch_size time (ok store) =
      let (clones, end) = inject_trace_context context (names 0 store) store in
      send R sendto (map (value_at end) clones) batch_size time nothing_sent

  -- The `with` of a client around a body.
  abbrev pub with_client : UdpClient → (UdpClient → Exc (Unit {0}) × Sent) → Run
  with_client client body =
      let (result, sent) = body (enter_client client) in
      record { sent = sent; result = result; client = some (exit_client client) }

  -- The errors of the file are only logged.
  abbrev pub send_objects :
      List (String × String)
      → String
      → ℤ
      → ℕ
      → ℤ
      → Exc (List (ValidatedObject R.Float) × List ValidationError)
      → Run
  send_objects context ip port batch_size time (raise e) = stopped e
  send_objects context ip port batch_size time (ok (objects, errors)) =
      with_client (new_client ip port)
        λ client. send_traced context batch_size time (as_dicts objects)

  abbrev pub send_file :
      List (String × String) → List String → String → ℤ → ℕ → ℤ → Exc (Validator R.Float) → Run
  send_file context source ip port batch_size time (raise e) = stopped e
  send_file context source ip port batch_size time (ok V) =
      send_objects context ip port batch_size time (get_validated_objects_from_file R V source)

  -- With what get_config() and the schema's file give, and the trace context of the span.
  unfoldable pub main :
      Exc (AppConfig R.Float)
      → Exc (Value R.Float → List SchemaError)
      → List (String × String)
      → List String
      → String
      → ℤ
      → ℕ
      → ℤ
      → Run
  unfolding as_dicts
  main config schema context source ip port batch_size time =
      send_file context source ip port batch_size time (open_validator config schema)

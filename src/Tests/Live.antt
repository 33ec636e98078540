-- ===== src/Tests/Live.antt =====
-- Runs of the way from the receiver to the clients, and of the health check.
use rtls_stream_visualizer.Base.{String, ℕ, ◌≡◌, refl, Option, List, [], ◌∷◌}
use rtls_stream_visualizer.Base.Raise.{Exc, raise, db_error}
use rtls_stream_visualizer.Python.Value.{obj, entries}
use rtls_stream_visualizer.Python.Runtime.{Loaded, loaded, malformed}
use rtls_stream_visualizer.Backend.Consumer.Accepted.{accepted}
use rtls_stream_visualizer.Backend.Params.{extract_params, item, fields_of}
use rtls_stream_visualizer.Backend.Database.{Storage, row_of}
use rtls_stream_visualizer.Base.Dict
use rtls_stream_visualizer.Backend.Socket.{Hub}
use rtls_stream_visualizer.Tests.Sample.{sample}
use rtls_stream_visualizer.Tests.Backend.{first, row, poison, storage, two_subscribers}

abbrev hub : Hub ℕ
hub = record { broadcast = two_subscribers; connections = 2 }

abbrev unreachable : Exc (Option (List ℕ))
unreachable = raise db_error

-- One message is stored and published, one is no JSON, and one has no timestamp.
abbrev three_messages : List (Storage String × Loaded String)
three_messages =
    (storage, loaded (obj first))
    ∷ (storage, malformed "no JSON")
    ∷ (storage, loaded (obj poison))
    ∷ []

accepted_run : accepted sample three_messages ≡ (first, row "A7" 5) ∷ []
unfolding accepted row_of extract_params item fields_of Dict.get entries
accepted_run = refl

-- ===== src/Backend/Consumer/Delivered.antt =====
-- What the consumer makes of the envelopes that the receiver publishes.
use rtls_stream_visualizer.Base.{String, ◌≡◌, refl, ap, ◌∙◌, true, Option, arith, none, some}
use rtls_stream_visualizer.Base.Int.{ℤ}
use rtls_stream_visualizer.Base.Dict
use rtls_stream_visualizer.Base.Raise.{Exc, ok, raise, db_error}
use rtls_stream_visualizer.Python.Value.{
  int, bool, integer, str, arr, obj, Fields, entries, of_entries,
}
use rtls_stream_visualizer.Python.Runtime.{Runtime, loaded}
use rtls_stream_visualizer.Handler.Event.{
  NormalizedEvent, as_dict, of_float, of_integer, of_text, of_texts,
}
use rtls_stream_visualizer.Core.Envelope.{build_v1}
use rtls_stream_visualizer.Core.Server.State.{UdpServer, Datagram}
use rtls_stream_visualizer.Core.Server.Delivery.{envelope_of}
use rtls_stream_visualizer.Backend.Params.{Params, item, fields_of, extract_params}
use rtls_stream_visualizer.Backend.Database.{Row, Storage, row_of}
use rtls_stream_visualizer.Backend.Consumer.{World, on_message}
use rtls_stream_visualizer.Backend.Consumer.Outcomes.{effect_of_row, on_message_tagged}

module _ (R : Runtime) (S : Storage R.Float) (server : UdpServer R.Float) where
  -- The JSON object that `handle` serialises for an event.
  abbrev pub object_of : Datagram R.Float → NormalizedEvent R.Float → String → Fields R.Float
  object_of d e origin = of_entries (envelope_of server d e origin)

  -- The parameters of an event: each column from the field of the same name.
  abbrev pub params_of : Datagram R.Float → NormalizedEvent R.Float → String → Params R.Float
  params_of d e origin = record {
    schema_version = str "1.0";
    event_type = str server.event_type;
    origin = str origin;
    normalized = integer (bool true);
    ingested_at_ms = integer (int d.ingested_at_ms);
    tag_id = str e.tag_id;
    ts_utc_ms = integer e.ts_utc_ms;
    source_type = str e.source_type;
    status = of_text e.status;
    layer = of_integer e.layer;
    area = of_text e.area;
    x = of_float e.x;
    y = of_float e.y;
    z = of_float e.z;
    lng = of_float e.lng;
    lat = of_float e.lat;
    raw_message = str e.raw_message;
    parse_warnings = S.print (arr (of_texts e.parse_warnings));
  }

  -- The row that the database makes of an event, or its error.
  abbrev pub stored : Params R.Float → Option (String × ℤ) → Exc (Row R.Float)
  stored params none = raise db_error
  stored params (some (tag, ts)) = ok (record { tag_id = tag; ts_utc_ms = ts; params = params })

  pub extract_params-object_of :
      (d : Datagram R.Float) (e : NormalizedEvent R.Float) (origin : String)
      → extract_params R S.print (object_of d e origin) ≡ ok (params_of d e origin)
  unfolding extract_params item fields_of Dict.get entries of_entries as_dict build_v1
  extract_params-object_of d e origin = refl

  pub row_of-stored :
      (envelope : Fields R.Float) (params : Params R.Float)
      → extract_params R S.print envelope ≡ ok params
      → row_of R S envelope ≡ stored params (S.admit params)
  unfolding row_of
  row_of-stored envelope params made = ground arith

  -- The consumer never drops an event that the receiver published, nor finds an item missing: read
  -- back from its JSON, the envelope is written with each column from the event's field of that
  -- name and then broadcast, or it goes back to the queue because the database refuses a column.
  pub on_message-object_of :
      (d : Datagram R.Float) (e : NormalizedEvent R.Float) (origin : String) (w : World R.Float)
      → on_message R S (loaded (obj (object_of d e origin))) w
        ≡ effect_of_row
            (object_of d e origin)
            w
            (stored (params_of d e origin) (S.admit (params_of d e origin)))
  unfolding Dict.get entries of_entries as_dict build_v1
  on_message-object_of d e origin w =
      on_message_tagged R S (object_of d e origin) w refl
      ∙ ap (effect_of_row (object_of d e origin) w) (
          row_of-stored (object_of d e origin) (params_of d e origin)
            (extract_params-object_of d e origin))

-- ===== src/Lib.antt =====
-- The stream of positions of an RTLS: from the UDP datagrams of tags to the tables, the history and
-- the live view.
--
-- How the program works. The receiver (core/udp/server.py) takes datagrams from a socket. Each goes
-- to the LS-1000 parser (stream_handler/ls1000_parser.py) and, if that refuses it, as JSON without
-- its trace keys (core/tracing.py) through the schema validator (core/validate.py) and the
-- normalizer (stream_handler/json_normalizer.py). The event is put into an envelope of a version
-- (core/envelope) and published with headers to RabbitMQ. The backend (backend/app.py, or the plain
-- backend/consumer.py) consumes the envelopes, writes each into two tables in one transaction
-- (backend/repository) and offers it to the queues of the WebSocket clients (backend/broadcast.py),
-- whose endpoint (backend/api/ws.py) sends a snapshot and then what is not stale.
-- backend/api/positions.py answers pages of the history.
--
-- Where each part is:
--   Base            lists, integers, dicts with insertion order, and results that may be exceptions
--   Python          texts, values of json.loads, int(), the pattern of coordinates, the runtime
--   Handler.Event, Handler.Ls1000, Handler.Normalizer           stream_handler
--   Core.Tracing, Core.Validate, Core.Envelope, Core.Server     core, one module per file or package
--   Backend.Params, Backend.Database                            backend/repository/positions.py
--   Backend.Broadcast, Backend.Consumer, Backend.Socket, Backend.History
--                   backend/broadcast.py, backend/app.py with backend/consumer.py,
--                   backend/api/ws.py, backend/api/positions.py
--   Core.Config, Backend.Settings                  core/config.py, backend/config.py
--   Core.Client, Core.Broker                       core/udp/client.py, core/broker/rabbitmq.py
--   Backend.Health, Backend.Pool                   backend/api/health.py, backend/db.py
--   Backend.Columns      the dicts of rows, backend/api/schemas.py, the end of backend/api/positions.py
--   Backend.App          create_app of backend/app.py, backend/main.py, the routers of backend/api
--   Runner.Metrics, Runner.Generator               udp_receiver/main.py, stream_generator/main.py
--   Backend.Queries      backend/repository/queries.py
--   Backend.Current      the snapshot of backend/repository/positions.py and backend/api/ws.py
--   Backend.Flight       backend/app.py, the handlers of the messages in flight
--   Backend.Redelivery   the queue that backend/app.py consumes, around Backend.Flight
--   Backend.Embedded, Backend.Monitor      backend/app.py, _run_consumer, _lifespan, the middleware,
--                   and main of backend/consumer.py
--   Core.Logging    core/logging_config.py
--   Runner.Receiver, Runner.Generator.Program      the entry points of these
--   Pipeline        the receiver, the exchange and the backend together; the trace through the programs
--   Tests           runs of the definitions at concrete inputs
-- The modules below one of these have its proofs. Functions keep their names without the leading
-- underscore; a method takes the fields of its object that it reads.
--
-- What stands for code that is not in the repository. `Python.Runtime.Runtime` is the Python
-- runtime as far as it is not written out: floats, `float()`, the case and the digits of characters
-- beyond ASCII, `repr`, `json.loads` and `json.dumps`. `json.loads` gives a value, a
-- JSONDecodeError or another exception. `Storage` is PostgreSQL's conversion of parameters to
-- columns, and `order` its ORDER BY, as a function of the rows; a real server may order equal
-- timestamps otherwise at each query. The schema of jsonschema, the contexts, spans and propagator
-- of OpenTelemetry (`Telemetry`), the clock, the sockets and the outcome of a publication are
-- fields of the state or of the input, and so is the stop event. What is assumed of them is a
-- hypothesis of the theorem that needs it (IsOrderBy, Orders, SparesHeaders, IsQuiet,
-- AcceptsCoords, Starts, ReadsBack, IsTraceContext, GivesBack, KeepsKeys, TakesOwn). `Column` is
-- what PostgreSQL gives back of a value in a column, and `Readers` how pydantic reads a field.
--
-- Representation. `dumps` is total: json.dumps of an int of more than 4300 digits, which int() of a
-- hexadecimal text can make, raises in Python. Texts are sequences of Unicode scalars, so a lone
-- surrogate from a JSON escape is not among them. Python integers are ℤ without bound; `int()`
-- refuses more than 4300 digits as Python does. A dict is a list of pairs in insertion order. An
-- exception is a value of `Base.Raise.Exception`, and a function that may raise returns `Exc`. The
-- endless loops go over the list of what the socket, the broker or the queue gives. The only fuel
-- is that of the hexadecimal digits in Core.Logging.Hex, which is the width and the number: each
-- digit lowers one of them.
--
-- Concurrency. Backend.Consumer handles one message at a time. Backend.Flight has ten in flight:
-- each handler inserts, upserts, commits and broadcasts in steps of its own, which interleave in
-- any way with those of the others, with deliveries and with the clients. PostgreSQL is at READ
-- COMMITTED, where an upsert waits for the open transaction that has upserted its tag.
-- Backend.Redelivery puts the queue of the broker around these: a message is delivered in any
-- order, again when its handler raises, and again when the backend ends before the broker has its
-- acknowledgement, which is a step after the broadcast. A run of the backend keeps its connection
-- to the broker there: what a handler does whose connection is lost meanwhile is not modelled.
-- Events stand in the order of their commits; their ids, given at the INSERT and read by no query,
-- are not modelled. Backend.Embedded, Core.Broker.Publisher and Runner.Receiver take which calls of
-- aio_pika return as an argument.
--
-- Not modelled: the texts of log messages, spans, latencies other than their labels, how FastAPI
-- runs the middleware that is registered, the propagator, aio_pika, psycopg and asyncio themselves, an
-- interrupt by a signal, the frontend and the deployment.
pub mod Base
pub mod Python
pub mod Handler
pub mod Core
pub mod Backend
pub mod Runner
pub mod Pipeline
pub mod Tests

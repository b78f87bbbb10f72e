-- ===== src/Lib.antt =====
-- event-processor (services/event-processor-python): a service that reads events from Kafka,
-- turns each into XML in an object store, tells the status of an event over HTTP, and replays an
-- event that it fetches from event-api (services/event-api), the service that takes the events in,
-- stores them and publishes them to Kafka.
--
-- The parts, with the file of services/event-processor-python/event_processor that each models:
--   Store      store.py             the map from an event id to its record
--   Watermark  watermark.py         the next offset to commit of each partition
--   Pool       worker.py            the worker threads with their bounded queues
--   EventId    consumer.py and processor.py: the two places that find an event's id
--   Consumer   consumer.py          the state and the parts of the consumer's loop
--   System     consumer.py, ../main.py: the loop, the workers and the main thread, interleaved
--   Processor  processor.py         from a message body to an object and a record
--   Service    processor.py, api.py the loop and the workers with the effects of their work
--   Service.Latest  the same files  the object that several messages write
--   Client     event_api_client.py  the constructor, login, token, fetch, the one retry
--   Client.Sharing  the same file   several calls on one client, interleaved
--   Publisher  kafka_producer.py    produce and flush
--   Health     health.py            the two probes
--   Api        api.py               the handlers of the HTTP endpoints
--   Config     config.py            the readers of the environment, and the settings
--   Shutdown   ../main.py           the exit code
--   Main       ../main.py           the main thread, from the bucket and the pool to the exit
-- and of services/event-api/src/main/java/com/example/eventapi:
--   EventApi           event/Event.java, web/GlobalExceptionHandler.java
--   EventApi.Events    event/EventService.java: create, find and delete, and their histories
--   EventApi.Listing   event/EventService.java, event/EventSpecifications.java: the pages
--   EventApi.Stats     stats/StatsService.java, event/EventRepository.java
--   EventApi.Security  config/SecurityConfig.java, security/JwtAuthenticationFilter.java,
--                      auth/AuthController.java: the rules, the filter and the login
--   EventApi.Security.Provider   security/JwtTokenProvider.java: the construction
--   EventApi.Security.Users      config/SecurityConfig.java: the seeding of the users
--   EventApi.Server    the login and the read of an event, as the processor's client sees them
--   EventApi.Requests  event/EventController.java: the requests that create, read and delete
--   EventApi.Replays   both services: the replay of an event that was created
--   EventApi.Processing  both services: the processing of the message of a created event
-- Prelude, Dict, IntSet, Json and Errors are what the parts share: Python's dict as an association
-- list in the order of insertion, its set of offsets as a list without repetition, the values of
-- json.loads, and the exceptions that the code tells apart.
--
-- How they interact. The consumer thread polls Kafka. It marks the event of a message pending in
-- the store, shows the offset to the watermark, and submits the message to the worker that its
-- key selects, waiting while that worker's queue is full. A worker takes the entries of its queue
-- in order; the work of a message is `process` of the processor, which marks the event processed.
-- A worker then puts the partition, the offset and the outcome into the queue of completions. The
-- consumer thread drains that queue into the watermark, and commits what the watermark offers.
-- The endpoints read and write the same store, and a replay publishes to Kafka again. The
-- main thread makes sure of the bucket, starts the other threads, waits in the HTTP server, then
-- stops the consumer thread, drains the pool, flushes the producer and returns the exit code.
-- event-api stores an event, then sends its message to Kafka. The client of a replay logs in to
-- event-api and reads the event under the token: `EventApi.Server.server` puts the handlers of
-- event-api where the client's HTTP connection is a parameter, and `EventApi.Replays` joins the
-- replay of the processor to the creation of the event.
--
-- Restarts. `Service.Restarts` chains runs: the object store stays, all other state is lost, and the
-- broker goes on with a partition at the offset that it accepted
-- last, at which the next message stands.
--
-- How the state corresponds. A method under a lock is one function on the object's state. A
-- thread is a position in its code: `Pool.Thread` for a worker, `System.Phase` for the consumer
-- thread, `Main.Place` for the main thread, `Service.Progress` for a worker's `process`,
-- `Client.Sharing.Place` for a thread in `get_event`, whose steps are a section under the lock of
-- the token or a request each.
-- A call on a queue that may block is a function into Option, `none` while it blocks, and a step
-- of `Pool.Step` or `System.Step` is one such call or one piece of a thread's code between two of
-- them, so that a run is any interleaving. The clock is not there: the commit interval, the
-- timeouts and the stop flag are choices of a step. So are the answers of the broker, the
-- messages that Kafka delivers (any message at any time, a redelivered one included), and whether
-- the work of a message returns. `System.System` also records the past, as three fields that no
-- step reads: the dispatched messages, the finished ones, and the offsets requested of the
-- broker. In `System.Step` the store may be called by any thread at any time, and the stop flag
-- may be set at any time. `Service.Step` refines this: a worker's `process` puts the object, then
-- notes the event, with steps of other threads between the two. `Main.Step` refines it in another
-- way: only the main thread sets the flag and puts the sentinels, at its places in the code.
--
-- In event-api a request is a function on the service's state, since its handlers share no state
-- but the database and the Kafka template; a transaction that raises leaves the rows as they were.
-- The n-th request has a time and, if it creates an event, a new id.
--
-- Numbers. Offsets, sizes, status codes and keys are natural numbers without a bound, as Python's
-- are; `next_offset - 1` is an integer, since it is -1 at offset 0. A time is a number of
-- microseconds, in event-api of milliseconds. The lifetime of a token there wraps around at 64
-- bits, as a Java `long` does; a page and a size are integers. A key is a list of bytes, each a
-- number, and absent keys are `none`.
--
-- Fuel. Only `Watermark.advance`, the loop of `complete`, takes fuel: the size of the set, which
-- is enough, because each round removes an element.
--
-- Parameters. Code of other libraries is an argument of what uses it: `EventId.Codec` (decode,
-- json.loads, str), `Processor.XmlCodec` (xmltodict and encode), `Processor.Minio` with the law
-- `IsLawful` (a put that returns has stored the body, and no put touches another object),
-- `Client.Http` (the HTTP client with the server behind it), `Publisher.Producer` (the Kafka
-- producer), `Api.Encoder` (json.dumps and encode), `Config.Parser` (int, float and lower), and
-- `Main.Startup.Buckets` (the buckets) with the law `IsTruthful` (an answer about a bucket is
-- true, and a `make_bucket` that returns has made it). What is said of runs with the effects of
-- the work also takes `IsAtomic` of the object store: a put that raises has stored the whole body
-- or nothing. The round trips take `Api.RoundTrip.IsInverse`: one value survives its encoding and
-- decoding. In event-api: `EventApi.Events.Repository` (one row of the table) with the law
-- `IsLawful` (a read gives what is stored, a write changes its own row or, if it raises, nothing),
-- `Mapper` (Jackson), `Template` (the Kafka template), `Platform` (texts of values), `Security.Jwt`
-- with `IsVerifying` (a signed token is accepted before its expiry and not after), `Logins` (the
-- authentication manager with its users), `Users.Manager` (the user manager with its password
-- encoder) with a law of its own, `Provider.Texts` (isBlank and BASE64), `Listing.Database`
-- with `IsOrdering` (ORDER BY gives the rows in order), `Stats.Database` with `IsGrouping` (GROUP BY
-- gives one row for each type, with its count), and `Server.Deployment`, which collects those of a
-- running service with its clock and its paths; `IsConnected` says that a client's URLs and
-- credentials are for this service. Tests, Main.Tests and EventApi.Tests have instances of them,
-- Processor.Memory an object store.
--
-- Not modelled: logging; the HTTP servers, their routing and the parsing of bodies and parameters;
-- the construction of the Kafka, Minio and HTTP clients, with their timeouts, and the close of the
-- HTTP client; of event-api, the JSON writer of the security handlers, the totals of a page, and
-- the asynchronous outcome of a send, which is only logged; the database and the container files.
pub mod Prelude
pub mod Dict
pub mod IntSet
pub mod Errors
pub mod Config
pub mod Json
pub mod EventId
pub mod Consumer
pub mod Processor
pub mod Client
pub mod Publisher
pub mod Health
pub mod Api
pub mod Shutdown
pub mod Main
pub mod Service
pub mod EventApi
pub mod Pool
pub mod Store
pub mod Watermark
pub mod System
pub mod Tests

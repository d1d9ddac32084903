-- ===== src/Lib.antt =====
-- cribe, a Telegram bot that downloads videos from YouTube and sends them to the chat that asked.
--
-- The program. A chat's message is read by a worker of `Dispatcher.dispatchingMessages`
-- (internal/bot/server.go), which loads the chat's session, sends an event to its state machine
-- (pkg/botstate), and puts a request on the queue "fetching". The workers of
-- `consumingVideoFetching` take requests from there: `fetch` (internal/bot/fetch.go) downloads the
-- video, keeps the object in a storage (internal/storage) and its metadata in PostgreSQL
-- (internal/db), and puts a message on the queue "uploading". The workers of
-- `consumingVideoUploading` take that: `upload` (internal/bot/upload.go) sends the file to the
-- chat, saves the file's id that Telegram gave and deletes the object; a video whose id is known is
-- only shared. Both kinds of workers keep a list of the jobs in hand, which `finalization` hands
-- back to the queues when the program stops. internal/srvenv sets the services up.
--
-- Which file models which part.
--   Fsm: pkg/botstate/fsm.go. `send_event` is `SendEvent` and `round` one round of its loop. What
--     it does is in Fsm/Routes and Fsm/Termination.
--   Session: pkg/botstate/session.go, `load`, `flush` and `clean`. Session/Encoding: the JSON of a
--     session's state. Session/Backends: redis.go, noop.go and inmemory.go. Session/RoundTrip: what
--     a backend promises.
--   Storage: internal/storage; Storage/Fs is fs.go and Storage/S3 is s3.go. Storage/Keeping and
--     Storage/KeepingS3: what a storage promises.
--   Db: internal/db/model.go; Db/Config the connection strings and `NewFromEnv`, Db/Transaction
--     `InTx` of database.go, Db/Repository metadata.go. Db/Table: what a database of metadata
--     promises; Db/Repository/Postgres: what its pool does.
--   Bot/Services: the interfaces of internal/bot/contracts.go, and the data that the dispatcher
--     reads. Bot/World: the dispatcher's state. Bot/Fetch and Bot/Thumbnails: fetch.go. Bot/Upload:
--     upload.go. Of server.go, Bot/Jobs is the list of jobs, Bot/Consumers the two consuming loops,
--     Bot/Finalization the end of a run, Bot/Messages the chats' machine and the dispatching loop,
--     Bot/Updates the options and `setupTelegramMode`, Bot/Dispatcher `NewDispatcher` with the
--     broker of amqp.go, and Bot/Running `Run` with its goroutines. Bot/Jobs/Slices is `deleteJob`
--     by positions, Bot/Messages/Isolation keeps the senders apart, Bot/Messages/Requests follows a
--     message to the worker that takes up its request, and Bot/Pipeline a video from the queue of
--     fetches to the queue of uploads and through it; Bot/Consumers/Answers and
--     Bot/Consumers/Videos follow a worker through all the messages of its queue, which
--     Bot/Consumers/Queues counts; Bot/Pipeline/Resuming has what one part of the program publishes
--     and another takes up, and Bot/Pipeline/Delivery follows it into the chat, over
--     Bot/Upload/Delivery, which counts the videos that an upload sends, and Bot/Pipeline/Journey
--     follows a chat's message through both queues to the video. Bot/Jobs/Commuting
--     has the steps on the list that commute. Bot/Encoding: the JSON of the messages.
--   Json: the package encoding/json of Go's standard library, as far as the program uses it.
--     Json/Quoting writes a text, Json/Strings, Json/Numbers and Json/Scanner read a value one
--     character at a time, within the 10000 levels that the package allows, Json/Values are the
--     values, and Json/Fields fills the fields of a struct.
--   Srvenv: internal/srvenv. Session/RedisConfig: the settings of redis.go. Logging: the loggers of
--     internal/logging/logger.go. Shutdown: internal/shutdown/context.go. Localization:
--     internal/localization/func.go. BuildInfo: internal/buildinfo/buildinfo.go. Entry:
--     cmd/cribe-bot/main.go; Entry/Assembly is `main` with `srvenv.Setup` and `NewDispatcher` put
--     in, and Entry/Routing the paths of its HTTP server.
--   Prelude, Errors, Exec and Bytes: shared names, Go's errors with wrapping and `errors.Is`, Go's
--     functions that return a value, an error, or panic, with `defer`, and encoded values.
--
-- How. A method is a function from a state to a result and the state that it leaves. A `World` is
-- the dispatcher's list of jobs, the state of everything outside, and a history of the calls made,
-- which the program does not keep and the theorems speak of. The services outside are parameters:
-- any functions on the state outside, which may fail or panic at each call; where a theorem relies
-- on what they document, it says so by a named hypothesis. Go's nil errors, interfaces and maps are
-- `none`. A dereference of nil, and a call that panics, is `panic`. Integers that the program only
-- prints or stores are unbounded.
--
-- Fuel. Only `SendEvent` loops without a bound of its own. `send_event` runs on fuel, one unit for
-- a round, and is `none` where it has not returned. The bot's machine needs two rounds, which is
-- the fuel that `parse_video` gives.
--
-- Goroutines. Each worker is a function of its own. Bot/Running interleaves the workers of a run by
-- the steps that they make on what they share: the list of jobs, which the dispatcher's mutex
-- guards, the variable `err` of `Run`, the context, and the receiving of updates; Bot/Running/Moves
-- and Bot/Running/Simulation derive these steps from the loops of the workers, with Fsm/Framing and
-- Bot/Messages/Jobs for those of the chats. Shutdown does the same for the goroutine that waits for
-- a signal. What the goroutine of the HTTP server assigns to the variable `err` of `main` before a
-- test of it is an argument of Entry's `main`.
--
-- Not modelled. The texts of JSON's syntax errors, which are only logged, are one text. The
-- decoding of Telegram's own messages, whose type is its library's, is a parameter. The pages of
-- profiles and the handler of a webhook, which libraries register on the default mux, are a
-- parameter, and so is how net/http listens. The generated mocks and tools are left out. Each
-- consuming loop has a goroutine that closes its channel when the context is cancelled; it assigns
-- its error to the variable that the loop tests, a race that could hide or make up an error of the
-- loop, and is left out. Acknowledging is left to the broker, which the program asks to do it. Log
-- lines have no effect. A Go string is a text of characters, so bytes that are no UTF-8, which the
-- JSON package replaces, do not occur.
pub mod Prelude
pub mod Errors
pub mod Exec
pub mod Bytes
pub mod Fsm
pub mod Session
pub mod Storage
pub mod Db
pub mod Bot
pub mod Srvenv
pub mod Logging
pub mod Shutdown
pub mod BuildInfo
pub mod Localization
pub mod Entry
pub mod Tests
pub mod Json

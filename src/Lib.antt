-- ===== src/Lib.antt =====
-- A verification library of windowframe, a Go toolkit for services: caches, queues over NATS and
-- asynq, an HTTP server, background workers and more.
--
-- What is modelled, by file (paths from the repository's root):
--   Errors          error values, trees of %w and errors.Join, errors.Is and errors.As (errors/errors.go and the
--                   sentinels of the packages below)
--   Cache.*         cache/expiring.go, cache/fixed.go, cache/lru.go, cache/lru_expiring.go
--   Queue.Options   queue/options.go, queue/types.go
--   Queue.Observer  queue/consumer_observer.go, queue/errors.go
--   Queue.Consumer  queue/consumer.go
--   Queue.Producer  queue/producer.go
--   Queue.Nats.*    queue/nats/consumer.go, queue/nats/message.go, queue/nats/producer.go
--   Queue.Nats.Delivery  the driver and the consumer of queue/consumer.go together
--   Queue.Asynq.*   queue/asynq/message.go, queue/asynq/producer.go, queue/asynq/consumer.go
--   Http.*          http/http.go, http/handlers, http/validation, http/httperrors
--   Http.Idempotent.*  http/middleware/idempotent.go, http/middleware/idempotent_store.go
--   Workers.*       workers/locker.go, workers/workers.go, workers/monitor.go
--   Uuid.*          uuid/uuid.go, uuid/sql.go
--   Http.Server     New, HandleErrors and Register of http/http.go
--   Http.Lifecycle  Start and Stop of http/http.go
--   Events.*        events/events.go, events/wrapper.go
--   Config.*        config/parser.go, config/env.go, config/yaml.go, config/flags.go
--   Duration        duration/string.go
--   Crypto.*        crypto/encryption.go, crypto/token.go
--   Comms           comms/sender.go, comms/responder.go
--   Log.*           log/handler.go, log/slog.go, log/logger.go
--   Http.Schema     buildSchema of http/http.go, http/handlers/handlers.go
--   Http.Common     http/common/common.go
--   Http.RequestLog http/middleware/zap.go, http/middleware/logger.go
--   Tracing         tracing/tracing.go, otel/otel.go
--   Storage         storage/storage.go
--   Profiling       profiling/profiling.go
--   Database        database/postgres
--   Http.Skips      http/middleware/metrics.go, http/middleware/tracing.go
--   Http.Stored     http/common/common.go
--   Http.Tags       http/validation/validator.go
--   Redis           redis/redis.go
--   Text            what the program uses of strings, strconv and regexp
--
-- Conventions. A method that changes its receiver returns the new record. An error is an option of
-- Errors.Err. A Go map is an association list (Prelude.Maps). An instant is a number of nanoseconds
-- from Go's zero time (in Uuid from 1970), a duration an integer. Clock readings, random values and what third-party
-- packages do are arguments; where a proof relies on such a package, its documented behaviour is a
-- record of laws (LruApi, KeyValueApi, IsRetryDelay, IsRedis, IsCtx, IsAead), and the Examples modules give an instance.
-- Recursion is structural. Two loops run on fuel: Text.decimal, on a fuel above the number, and
-- Duration.split_days, on the number of hours; number-decimal and split_days_divides show it to be enough.
--
-- Not modelled: the expiry of entries in the processed log and of stored responses; the goroutine that waits to hand a
-- message to the queue consumer while its channel is full; a Start during another Start; spans, the log lines of the single packages and the registration of metrics; connecting to
-- servers, and what the libraries for the OpenAPI document, storage, tracing and profiling do (golang-migrate
-- is a parameter, whose law IsSettling says that Up changes nothing once it has succeeded); the
-- goroutine scheduler, but for the interleavings that Cache.Expiring.Races, Queue.Nats.Protocol,
-- Workers.Cluster, Http.Lifecycle, Events.Pool and Events.Lifecycle spell out.
pub mod Prelude
pub mod Errors
pub mod Text
pub mod Cache
pub mod Queue
pub mod Http
pub mod Workers
pub mod Uuid
pub mod Events
pub mod Config
pub mod Duration
pub mod Crypto
pub mod Comms
pub mod Log
pub mod Tracing
pub mod Storage
pub mod Profiling
pub mod Database
pub mod Redis

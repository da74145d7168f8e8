-- ===== src/Lib.antt =====
-- llmproxy, a proxy in front of language model servers: a client's request is queued by priority,
-- admitted by a rate limiter, and forwarded by a worker to one of the nodes that serve its model,
-- with other nodes as a fallback. Paths below are from the directory of the Go module, src/.
--
-- RequestQueue models internal/queue/priority_queue.go. Its state is the slice of container/heap,
-- the maximum and the closed flag; enqueue, dequeue_blocking and remove are Enqueue,
-- DequeueBlocking and Remove under the lock. Heap is container/heap itself, Heap/Order, Heap/Up,
-- Heap/Down and Heap/Laws what the queue needs of it. RequestQueue/Wakeups has the condition
-- variable: a Monitor counts waiting and woken goroutines, and a Step is one critical section.
-- RateLimit models internal/ratelimit/limiter.go over a counter store, the record Cache after the
-- interface of internal/storage/interfaces.go. MemoryCache models internal/storage/memory/cache.go
-- and fills that interface. Float arithmetic is the parameter FloatOps; RateLimit/Ieee states
-- what it takes from IEEE 754. Router models internal/router: the node table, the alias index and
-- both pickers; Router/Refinement runs it beside a plain table of nodes. Go visits a map in any
-- order, so that a rebuild takes the order of its visit as an argument. Json and Override model
-- internal/proxy/override.go, Proxy internal/proxy/proxy.go and Stream internal/proxy/stream.go.
-- RetryRecorder and Worker model internal/worker/pool.go: the buffering writer, and
-- forwardWithRetry as retry_loop. Http has the header maps and the client's writer of net/http.
-- Logging models the failure classes of internal/logging/chain_logger.go, Logging/Throttle its line
-- on the rate limit, and Domain the data of internal/domain. Auth models internal/auth/auth.go;
-- Middleware internal/api/middleware.go and the two stacks of internal/api/server.go; Server has
-- its routes, with those that openai.go and admin.go register, and its health check. AsyncLogger
-- models internal/logging/logger.go: a Half is a channel with its worker, and perform an event of
-- one of the goroutines around it. Metrics models internal/metrics/metrics.go, and ClientApi
-- internal/api/openai.go: forward_arrive is the handler up to its select, forward_wake what
-- follows. SqlLogger models internal/storage/sqlite/logger.go over a Database, with the queries in
-- SqlLogger/Queries and the scan of their rows in SqlLogger/Scan, Retention a run of the cleaner of
-- internal/logging/retention.go, Config internal/config/config.go, and AdminApi
-- internal/api/admin.go over an AdminStore and a LogReader. Pool models the loop of the workers in
-- internal/worker/pool.go: a Step is what a worker, or a goroutine that puts a request back, does
-- up to its next wait. Storage has the interface of that name in internal/storage/interfaces.go,
-- with what a client relies on as IsKeeping; SqlStorage models internal/storage/sqlite/storage.go
-- over a Database and fills it (Statements has the texts, Entries the rows, Schema the tables,
-- Keeping the laws), and Startup, its client, models what cmd/proxyllm/main.go does to the tables,
-- the router and the limits. MemoryQueue models internal/storage/memory/queue.go: an operation is
-- what a goroutine does between two places where it gives control away, and MemoryQueue/Runs
-- interleaves them. RedisCache models internal/storage/redis/cache.go over a client; like
-- MemoryCache it is a backend of Cache. Common has lists, integers, decimal digits and maps;
-- Returns says that code that may panic has a result with a property. Tests has runs on concrete
-- data.
--
-- A panic is none, also that of net/http at an upstream's code that has not three digits. Loops on
-- fuel get enough of it: a sift loop of Heap gets the length of the slice, dequeue_blocking one round
-- more than the heap has requests, the loop that deletes by size one more than the table has rows.
-- The retry loop counts down the attempts that are left. Integers do not wrap, since sizes, counters
-- and limits stay far below 2 ^ 63, except where the code reaches the end of the type: the
-- round-robin counter, the counters of the metrics and the offset of a page of the log wrap, and a
-- text of a number out of range is none.
--
-- Parameters stand for what the program takes from outside: the JSON codec, the exchange with a
-- node, the database, the Redis client, the file system, the clock, the random generator, and what
-- a request's context says when it is asked. Not modelled: durations and log lines; the queues of
-- internal/storage/redis and internal/storage/rabbitmq, which nothing in the program uses; the
-- calls that open and close connections; signals, the order in which the start builds the
-- components, and the embedded files; the ticker of the cleaner.
pub mod Common
pub mod Heap
pub mod Domain
pub mod RequestQueue
pub mod Cache
pub mod MemoryCache
pub mod RateLimit
pub mod Json
pub mod Override
pub mod Router
pub mod Auth
pub mod Middleware
pub mod Logging
pub mod Http
pub mod RetryRecorder
pub mod Stream
pub mod Proxy
pub mod Worker
pub mod Tests
pub mod AsyncLogger
pub mod Metrics
pub mod ClientApi
pub mod Config
pub mod SqlLogger
pub mod MemoryQueue
pub mod RedisCache
pub mod Storage
pub mod SqlStorage
pub mod Server
pub mod Startup
pub mod Retention
pub mod Pool
pub mod AdminApi

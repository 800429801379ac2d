-- ===== src/Lib.antt =====
-- Goncordia, a job queue for Go with interchangeable storage backends: a model of its core and the
-- proofs about it.
--
-- A client inserts jobs through a driver; a worker pool fetches due jobs in batches, each under a
-- claim (worker, attempt, lease), runs them, and reports the outcome through fenced transitions; a
-- cron leader enqueues periodic jobs. The drivers share the types of driver/driver.go.
--
--   Driver             driver/driver.go and driver/errors.go: rows, parameters, fencing precondition
--   Driver/Pagination  driver/pagination.go: the opaque page cursors
--   Memory             driver/memory/memory.go, the in-memory backend:
--     State            the maps (`Driver`) and the helpers `ensureQueue`, `broadcastNotify`,
--                      `findUniqueJob`
--     Jobs             JobInsertMany, JobGetByID, JobList, QueueStats
--     Claims           JobFetchBatch, JobMarkStarted, JobRescueStuck, JobHeartbeat,
--                      JobSetStateIfRunning
--     Edits            JobCancel, JobDelete, JobReschedule
--     Queues           QueueGet, QueuePause, QueueResume, QueueList
--     Leases           LeaderAttemptElect, LeaderResign, ScheduleCursorGetOrCreate,
--                      ScheduleCursorAdvance
--     Run              every state-changing call as one step, and histories of steps
--     Rows, Lifecycle, Frames, Steps, Insert, Distinct, Invariant, Untouched
--                      what one call may change
--     Listener         the subscriptions of its `Listener`
--     Fetch, Fencing, Unique, Terminal, Stats, Leases/Exclusion
--                      the promises of the backend
--     Scenarios        the theorems at concrete states
--     Interfaces       the backend as an `Executor` and as a store of rate-limit cursors
--   Driver/Executor    the calls that clients make of a driver
--   Driver/RateLimit   driver/rate_limit.go: `AcquireRateLimit`, GCRA and fixed windows; the
--                      accesses of Gcra and Window are the loops' calls of the store, one by
--                      one, and Replay and Requests lead the loops back to them
--   Core               core/job.go; Core/Retry is core/retry.go, and Core/Payload and
--                      Core/Envelope core/registry.go
--   Admission          admission.go: `QueueDepthAdmission`
--   Client             client.go: `buildInsertParams` and `buildUniqueKey`; Client/Enqueue is the
--                      Enqueue family
--   Cron               cron.go: validation and the scan, and the schedules of core/schedule.go;
--                      Cron/Tick is the tick
--   Maintenance        maintenance.go: bulk actions and replays; Maintenance/Retention is `Prune`
--                      and `DeadLetterList`
--   Worker             worker.go, the worker pool:
--     Config, Defaults `ValidateWorkerConfig` and the defaults of `newWorkerPool`
--     Limits, Normal   `normalizeRateLimits`, `rateRuleKey`, `UpdateQueuePolicy`
--     LocalRate        `localRateDelay` and `reserveLocalRateLimits`; Reserve and Ready on these
--     Permit, Waiting  `tryGlobalRateLimits` and `waitForRatePermit`
--     Dispatch         the claiming loop of `fetchAndDispatch`, `queueCanClaim` and its kin;
--                      Claiming, Capacity, Idle and Serving on these
--     Gates            the semaphores of `acquireKeyConcurrency` and the gates of
--                      `acquireRateGate`; Exclusion on these
--     Pipeline         `pipelineGate`; Serial on it
--     Running, Outcome `processRow`; Becomes and Settling on it
--     Claimed          the goroutine of a claimed job, `startHeartbeat`, `rescueStuck` and
--                      `kindSemaphore`; Renewal and Settled on these
--     Lifecycle        `Start`, `Shutdown`, `runMainLoop` and `acquireDistributedPipeline`
--     Scenarios, RateScenarios, PoolScenarios
--                      the theorems at concrete states, and Samples for them
--   Clock              clock/clock.go, the manual clock; Firing and Moves on it, Scenarios
--   Scenarios          the theorems of these parts at concrete inputs
--   Prelude            lists, maps as association lists, sorting, decimal numerals, integers
--   Time               times and durations
--
-- Conventions. A method of the memory driver holds its mutex throughout, so that it is one function
-- on the driver's state, and a concurrent execution is a sequence of calls with the clock's moves
-- between them (`Run`). A map is an association list, and Go's map order is the list's order. A
-- `time.Time` is a natural number of nanoseconds since Go's zero time, and a `time.Duration`, an
-- `int` or an `int64` is an unbounded integer, but in the manual clock, whose ticks saturate and wrap
-- as in 64 bits; the sequence number of the memory driver is a `uint64` that wraps, and the
-- theorems on IDs ask that it does not. A method's context and the
-- text of an error are left out; an error is its category. JSON with base64 is the parameter
-- `Codec`.
--
-- Loops without a bound of their own are on fuel: the compare-and-swap loops of the rate limits,
-- which end in the first round that no other process disturbs, and the pages of `Prune`. The scan of
-- a cron tick is bounded by 100,000 in the code. Floats (the interval of a rate limit, the jitter of
-- a retry), SHA-256, cron expressions and encoding/json are parameters.
--
-- Of the worker pool, the goroutines are steps of what they do to the shared state (`Step` of the
-- gates, `PipelineStep`, the passes of a wait), its claiming loop is on a fuel that is enough for the
-- loop to end by itself, and the wait for a rate permit is over the passes that its surroundings
-- allow. The loops on tickers and channels take the list of what they receive. SHA-256 and the interval's quotient of floats are the parameter `Arithmetic`.
--
-- Not modelled: the pool's observer and its listener's goroutines; the real clock, which is Go's
-- `time` package, and the goroutine of `WithTimeout`; the SQL, MongoDB, Redis, Cassandra, ClickHouse,
-- DynamoDB and Firestore drivers, whose behaviour is that of their database; telemetry, the HTTP
-- admin interface, benchmarks.
pub mod Admission
pub mod Client
pub mod Clock
pub mod Core
pub mod Cron
pub mod Driver
pub mod Maintenance
pub mod Memory
pub mod Prelude
pub mod Scenarios
pub mod Time
pub mod Worker

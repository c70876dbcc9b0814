-- ===== src/Lib.antt =====
-- The verification library of hellnet-lib-database, a Go library of typed access to PostgreSQL over
-- the driver pgx (directory database/).
--
-- The parts and their files:
--   * Resilience: the retry policy of database/resilience.go (`IsTransient`, `shouldRetry`, `do`,
--     `DoValue`) and `retried` of database/core.go.
--   * Hooks: the registry of query hooks, database/hooks.go.
--   * Core: the connection of database/core.go that DB, Conn and Tx share, its calls of the hooks, and,
--     in Operations, `runQuery` and the others (`runQueryContext`, `runQueryRowContext`, `runScalarContext`, `ExecuteContext`).
--   * Transaction: `runTransactional` of database/transaction.go, the isolation levels, and the two
--     collector calls of database/metrics.go that it makes. Script runs a list of statements in one.
--   * Repository: database/repository.go, in Clause (identifiers, ORDER BY, paging), Columns (the
--     mapping of struct fields) and Statements (upsert, update, EnsureTable).
--   * Options: Options, its defaults and validation, and the pool sizes of database/database.go.
--   * Environment: internal/env/env.go and the loading of Options from the environment. Construction: the
--     connection URL, `newDB`, `New`, `NewWithOptions`, `MustNew` and `Close` of database/database.go;
--     Link: `Connect` of database/connection.go. Sqlx: the constructor of database/sqlx.go.
--   * Metrics: database/metrics.go, with the events that a Prometheus registerer sees.
--   * Database: DB with its operations (database/core.go, database/database.go) and those of
--     Repository, put together from the modules above. Rounds tells the operations attempt by attempt;
--     Requests and Paging follow those of Repository from their arguments to the statements.
--   * Connection: pinned connections of database/connection.go and the operations of Tx of
--     database/transaction.go. Bulk and Batch: database/bulk.go and database/batch.go.
--   * Listen: database/listen.go. Loop has the two loops of `listenLoop`; Kept and Invariant carry a
--     property of the trace and of the borrowed connections through them, and Loans, Payloads, Delays,
--     Stops and Shutdown are what it is used for.
--   * Statement: database/statement.go (Name has `statementName`) and the span attributes of
--     database/pgx_tracer.go.
--   * PoolMetrics: database/pool_metrics.go, by the calls of the meter.
--   * View, Replica, Iterate, Results: database/view.go, replica.go, iterate.go and results.go.
--     Replica/Reads joins a cluster with the operations of its DBs.
--   * Prelude, Text, Errors and World are what these share: integers, Go strings, error trees with
--     errors.Is and errors.As, and the world that the code runs in. Examples holds concrete runs.
--
-- How the code corresponds: a function of the source is the definition of its name in snake case. A
-- call that leaves the library (the driver, a hook, the logger, a metric, a timer) is an event on the
-- trace of the world, and the answer is an oracle `Env` of the trace so far, an argument of every
-- theorem: nothing is assumed of the server, the hooks or the clock. A panic is an outcome. A closure
-- that assigns captured variables returns them beside its error. Reflection is an input: a struct type
-- is the list of its fields, an entity the list of their values. The caches of the mapping are shared
-- by goroutines: Repository/Columns/Cached runs them one Load or Store at a time, by a schedule, and
-- Metrics/Interleaved two calls of EnableMetrics, taken apart behind their check. A telemetry client's Span is a
-- parameter.
--
-- Bounds and fuel: numbers are natural numbers and integers, and where the source computes with int,
-- uint32 or time.Duration the wrap-around is written out (`int64`, `signed`, `added`). The retry loop
-- runs on the fuel max_count + 1, which is enough whenever an attempt itself ends, since a policy
-- allows no retry after that many attempts. The loop over leading comments runs on the length of the
-- text, each round dropping a comment. The loops of a listener run on fuel, one unit for a round: a
-- round makes a call that is an event, so a fuel above the number of events before a stop is enough.
-- Other loops are over lists.
--
-- Not modelled: the driver, the pool and the server; when a deadline or the watchdog of an iteration
-- fires, and the release of a context; the scheduling of goroutines (a goroutine of a
-- listener's handler is its start alone; the loop of a listener runs
-- between the calls that start and join it, the sampler of metrics is a definition of its own);
-- characters past ASCII in the case and space functions. Of the repository's own code the attributes
-- of OpenTelemetry's metrics are left out, and of spans those of an operation of DB. The environment's variables, package time's durations, the printer
-- of URLs, the parser of the pool's configuration and the telemetry packages are parameters.
pub mod Prelude
pub mod Text
pub mod Errors
pub mod World
pub mod Resilience
pub mod Options
pub mod Environment
pub mod Hooks
pub mod Core
pub mod Transaction
pub mod Repository
pub mod Results
pub mod Database
pub mod Construction
pub mod Connection
pub mod Listen
pub mod Sqlx
pub mod Metrics
pub mod PoolMetrics
pub mod Bulk
pub mod Statement
pub mod Batch
pub mod View
pub mod Replica
pub mod Iterate
pub mod Examples

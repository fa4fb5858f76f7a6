-- ===== src/Lib.antt =====
-- pgstorm, a PostgreSQL load generator (Go). A run reads its settings (config/), prepares the schema
-- (db/), starts workers that pick operations by weight and execute them (workload/), and publishes
-- what they measured (workload/stats.go, workload/result.go, metrics/). main.go ties them together.
--
-- Each file opens with the source file that it is about. Prelude holds what they share: lists over
-- native numbers, dictionaries, sorting, signed integers, 64-bit words, strconv.
--   Main: main.go, the life of the process as a list of events, over all that follows; Probes, when
--   the readiness probe succeeds.
--   Config: config/config.go.
--   Db: db/schema.go; Migration, Readiness, Arrival and Catalogue reason about it. Db/Pool: db/pool.go.
--   Metrics/IndexStats: metrics/index_stats.go. Metrics/PgStats: metrics/pg_stats.go; Columns,
--   Deltas and Reads follow each counter from a query's column to its `Add`. Metrics/PoolCollector:
--   metrics/pool_collector.go. Metrics/Registry: what the files of metrics/ register.
--   Workload/Profile: workload/profile.go, and what workload/oltp.go declares; Init is the state that
--   it sets up, with the pools of workload/actors.go; Follow, its schema and the replicas that wait.
--   Workload/Weights: workload/weights.go. Workload/Ring: workload/ring.go.
--   Workload/Payload: the draws of workload/payload.go and workload/actors.go; Stocked, when none of
--   them panics.
--   Workload/Templates: how the templates of workload/payload.go are built. The file itself is their
--   parts, Build the templates and their pools; Parts, Field and Fits reason about them.
--   Workload/Ops: workload/ops.go. The file itself is the calls of the database and of the ring,
--   Handlers the operations; Outcome, Quiet, Session, Bodies, Contract, Steps and Total reason about
--   them. Statements is the text of each statement, its arguments and what its rows are scanned into.
--   Workload/Worker: workload/worker.go, and the operation metrics of metrics/metrics.go; Oltp is
--   the executor that NewExecutor of workload/oltp.go builds, over Workload/Ops.
--   Workload/Fleet: the workers that main.go starts, all together, over the ring, the collector and
--   the metrics that they share; a turn of a worker is two events, so that others come in between.
--   Sound, Safe and Load reason about it, and Document about the result that `main` builds.
--   Workload/Stats: workload/stats.go. Window is what a worker records, Collector the drains and
--   totals, Series the intervals, Quantile the percentiles; Run is an interleaving of records and
--   drains, and Balance and Entries reason about what it leaves. Workload/Console: the summaries.
--   Workload/Snapshot, Workload/RunResult, Workload/ResultFile: workload/result.go, what is measured
--   of the database, the document of a run, and its file.
--
-- Conventions. A Go function becomes a function of the same name in snake case. A method that
-- changes its receiver returns the new one. `none` stands for a panic where a comment says so, and
-- `Result` for `(value, error)`. A mutex that is held for a whole method makes it one atomic step;
-- interleavings of goroutines are lists of such steps. `int64` counters are bit patterns that wrap
-- at 2^64; settings are signed integers. The sizes of payloads wrap so too, and `make` panics at a
-- size that is negative or more than the runtime gives, which is a parameter. A Go map is an
-- association list; where Go's order of iteration is open, the results do not depend on it. Floating point, randomness, time and the
-- answers of the database are parameters: Workload/Float.antt, Workload/Rng.antt,
-- Workload/Ops.antt, Workload/Templates.antt, Db.antt, Db/Pool.antt and Main.antt say what is used
-- of them. The Prometheus client is a log of the calls of it, and its registry the names registered.
--
-- The printing of numbers alone runs on fuel, 20 digits, which is enough for any `int64`. Every
-- other loop runs over a collection, and a worker's run over the list of its turns; a wait for the
-- schema runs over the list of its polls.
--
-- Not modelled: the HTTP server of main.go and what `/metrics` answers; log lines; help texts of
-- metrics; the encoding of the result as JSON.
pub mod Prelude
pub mod Config
pub mod Db
pub mod Metrics
pub mod Workload
pub mod Main

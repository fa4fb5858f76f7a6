-- ===== src/Metrics/IndexStats.antt =====
-- metrics/index_stats.go: the statistics of tables and indexes, published as gauges and, for the
-- server's running counts, as counters that grow by what was added since the last look.
--
-- The server's counts are `bigint`s that PostgreSQL never lets below 0: natural numbers. The
-- Prometheus client is a log of what is set and added, the newest first, in whole numbers, before
-- their conversion to `float64`. A query is its error, or its rows in order, each read or refused
-- by `Scan`, and the error of the rows at their end.
pub mod Growth
mod Tests
use Prim.Native.Nat.{◌-◌}
use pgstorm.Prelude.{
  ℕ, Bool, String, string_eq, Option, none, some, List, [], ◌∷◌, lookup, insert, joined, ltb,
  if◌then◌else◌, Result, ok, err,
}

-- `indexScanTracker`
abbrev pub Tracker : Type 0
Tracker = List (String × ℕ)

-- `newIndexScanTracker`
abbrev pub new_tracker : Tracker
new_tracker = []

-- What `delta` returns, given the value last seen.
unfoldable pub delta_from : Option ℕ → ℕ → ℕ
delta_from none current = 0
delta_from (some prev) current = if ltb current prev then 0 else current - prev

-- `delta`
unfoldable pub delta : String → ℕ → Tracker → ℕ × Tracker
unfolding delta_from lookup insert
delta key current t = (delta_from (lookup key t) current, insert key current t)

pub data Metric : Type 0 where
  index_size_bytes : String → String → Metric
  index_scans_total : String → String → Metric
  table_size_bytes : String → Metric
  table_live_tuples : String → Metric
  table_dead_tuples : String → Metric
  table_mod_since_analyze : String → Metric
  table_autovacuum_total : String → Metric
  table_autoanalyze_total : String → Metric

pub data Publish : Type 0 where
  set : Metric → ℕ → Publish
  add : Metric → ℕ → Publish

pub record IndexRow : Type 0 where
  pub index : String
  pub table : String
  pub size_bytes : ℕ
  pub scans : ℕ

pub record TableRow : Type 0 where
  pub table : String
  pub size_bytes : ℕ
  pub live_tuples : ℕ
  pub dead_tuples : ℕ
  pub mod_since_analyze : ℕ
  pub autovacuum_count : ℕ
  pub autoanalyze_count : ℕ

-- What the collectors change.
pub record Published : Type 0 where
  pub tracker : Tracker
  pub log : List Publish

-- `Add`, of a positive difference.
unfoldable pub add_if_positive : Metric → ℕ → List Publish → List Publish
add_if_positive metric d log = if ltb 0 d then add metric d ∷ log else log

-- A counter that follows a running count of the server.
unfoldable pub follow : Metric → String → ℕ → Published → Published
unfolding delta add_if_positive
follow metric key current p =
    let (d, t) = delta key current p.tracker in
    record { tracker = t; log = add_if_positive metric d p.log }

unfoldable pub publish_index : IndexRow → Published → Published
unfolding follow
publish_index row p =
    follow (index_scans_total row.index row.table) row.index row.scans
      (record p { log = set (index_size_bytes row.index row.table) row.size_bytes ∷ p.log })

unfoldable pub publish_table : TableRow → Published → Published
unfolding follow
publish_table row p =
    follow (table_autoanalyze_total row.table) (joined row.table ":autoanalyze")
      row.autoanalyze_count
      (follow (table_autovacuum_total row.table) (joined row.table ":autovacuum")
        row.autovacuum_count
        (record p {
          log =
              set (table_mod_since_analyze row.table) row.mod_since_analyze
              ∷ set (table_dead_tuples row.table) row.dead_tuples
              ∷ set (table_live_tuples row.table) row.live_tuples
              ∷ set (table_size_bytes row.table) row.size_bytes
              ∷ p.log;
        }))

module _ (E : Type 0) where
  -- The loop over the rows; it returns at the first that cannot be read.
  unfoldable pub publish_rows :
      {R : Type 0}
      → (R → Published → Published)
      → List (Result E R)
      → Option E
      → Published
      → Option E × Published
  publish_rows publish [] rows_err p = (rows_err, p)
  publish_rows publish (err e ∷ rows) rows_err p = (some e, p)
  publish_rows publish (ok r ∷ rows) rows_err p = publish_rows publish rows rows_err (publish r p)

  -- An answer to a query.
  abbrev pub Answer : Type 0 → Type 0
  Answer R = Result E (List (Result E R) × Option E)

  unfoldable pub collect :
      {R : Type 0} → (R → Published → Published) → Answer R → Published → Option E × Published
  unfolding publish_rows
  collect publish (err e) p = (some e, p)
  collect publish (ok (rows, rows_err)) p = publish_rows publish rows rows_err p

  -- `collectIndexStats`
  unfoldable pub collect_index_stats : Answer IndexRow → Published → Option E × Published
  unfolding collect publish_index
  collect_index_stats = collect publish_index

  -- `collectTableStats`
  unfoldable pub collect_table_stats : Answer TableRow → Published → Option E × Published
  unfolding collect publish_table
  collect_table_stats = collect publish_table

  -- `RunIndexStatsLoop`: one answer for each tick before the context is done; errors are logged.
  unfoldable pub run_index_stats_loop : List (Answer IndexRow) → Published → Published
  unfolding collect_index_stats
  run_index_stats_loop [] p = p
  run_index_stats_loop (answer ∷ answers) p =
      run_index_stats_loop answers (collect_index_stats answer p).1

  -- `RunTableStatsLoop`
  unfoldable pub run_table_stats_loop : List (Answer TableRow) → Published → Published
  unfolding collect_table_stats
  run_table_stats_loop [] p = p
  run_table_stats_loop (answer ∷ answers) p =
      run_table_stats_loop answers (collect_table_stats answer p).1

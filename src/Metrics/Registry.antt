-- ===== src/Metrics/Registry.antt =====
-- The metrics that the process publishes, under the names that they are registered by: metrics.go,
-- index_stats.go and pg_stats.go of metrics/, and the order in which main.go registers them.
--
-- The client's registry is the list of the names registered, the newest first; it is one per
-- process, and holds the names of the client's own collectors before. `MustRegister` panics, here
-- `none`, on a name that is registered. Kinds, help texts and buckets are
-- left out.
pub mod Start
mod Tests
use pgstorm.Prelude.{
  Bool, true, false, String, string_eq, Option, none, some, List, [], ◌∷◌, joined, if◌then◌else◌,
}
use mathlib.Core.Option
use pgstorm.Db.{contains}
use pgstorm.Metrics.IndexStats.{
  Metric, index_size_bytes, index_scans_total, table_size_bytes, table_live_tuples,
  table_dead_tuples, table_mod_since_analyze, table_autovacuum_total, table_autoanalyze_total,
}
use pgstorm.Workload.Float.{Float64}
use pgstorm.Workload.Worker.{
  Executor, MetricCall, ops_total, op_duration, ops_skipped, workers_inc, workers_dec,
}
use pgstorm.Metrics.PgStats.{
  Publish, add, reset_waits, set_wait, Counter, checkpoints_timed, checkpoints_req,
  buffers_checkpoint, buffers_clean, buffers_backend, checkpoint_write_seconds,
  checkpoint_sync_seconds, wal_bytes_total, wal_records_total, wal_fpi_total,
  wal_buffers_full_total,
}

pub record Desc : Type 0 where
  pub name : String
  pub labels : List String

-- A metric in the namespace.
unfoldable pub desc : String → List String → Desc
desc name labels = record { name = joined "pgstorm" (joined "_" name); labels = labels }

-- The metric that a call of the workers publishes under.
unfoldable pub call_desc : {F : Float64} {X : Executor} → MetricCall F X → Desc
unfolding desc
call_desc (ops_total op failed) = desc "ops_total" ("op" ∷ "status" ∷ [])
call_desc (op_duration op duration) = desc "op_duration_seconds" ("op" ∷ [])
call_desc (ops_skipped op) = desc "ops_skipped_total" ("op" ∷ [])
call_desc workers_inc = desc "workers_active" []
call_desc workers_dec = desc "workers_active" []

-- The variables of metrics.go, as they are registered.
unfoldable pub op_metrics : List Desc
unfolding desc
op_metrics =
    desc "ops_total" ("op" ∷ "status" ∷ [])
    ∷ desc "op_duration_seconds" ("op" ∷ [])
    ∷ desc "workers_active" []
    ∷ desc "ops_skipped_total" ("op" ∷ [])
    ∷ []

-- The metric that a value of a table or an index is published under.
unfoldable pub metric_desc : Metric → Desc
unfolding desc
metric_desc (index_size_bytes index table) = desc "index_size_bytes" ("index" ∷ "table" ∷ [])
metric_desc (index_scans_total index table) = desc "index_scans_total" ("index" ∷ "table" ∷ [])
metric_desc (table_size_bytes table) = desc "table_size_bytes" ("table" ∷ [])
metric_desc (table_live_tuples table) = desc "table_live_tuples" ("table" ∷ [])
metric_desc (table_dead_tuples table) = desc "table_dead_tuples" ("table" ∷ [])
metric_desc (table_mod_since_analyze table) = desc "table_mod_since_analyze" ("table" ∷ [])
metric_desc (table_autovacuum_total table) = desc "table_autovacuum_total" ("table" ∷ [])
metric_desc (table_autoanalyze_total table) = desc "table_autoanalyze_total" ("table" ∷ [])

-- The metric of a counter of the server's statistics.
unfoldable pub counter_desc : Counter → Desc
unfolding desc
counter_desc checkpoints_timed = desc "bgwriter_checkpoints_timed_total" []
counter_desc checkpoints_req = desc "bgwriter_checkpoints_req_total" []
counter_desc buffers_checkpoint = desc "bgwriter_buffers_checkpoint_total" []
counter_desc buffers_clean = desc "bgwriter_buffers_clean_total" []
counter_desc buffers_backend = desc "bgwriter_buffers_backend_total" []
counter_desc checkpoint_write_seconds = desc "bgwriter_checkpoint_write_seconds_total" []
counter_desc checkpoint_sync_seconds = desc "bgwriter_checkpoint_sync_seconds_total" []
counter_desc wal_bytes_total = desc "wal_bytes_total" []
counter_desc wal_records_total = desc "wal_records_total" []
counter_desc wal_fpi_total = desc "wal_fpi_total" []
counter_desc wal_buffers_full_total = desc "wal_buffers_full_total" []

unfoldable pub wait_events_active : Desc
unfolding desc
wait_events_active = desc "wait_events_active" ("wait_event_type" ∷ "wait_event" ∷ [])

-- The metric that a value of the server's statistics is published under.
unfoldable pub publish_desc : {F : Float64} → Publish F → Desc
unfolding counter_desc wait_events_active
publish_desc (add counter v) = counter_desc counter
publish_desc reset_waits = wait_events_active
publish_desc (set_wait type event v) = wait_events_active

-- The name under which a vector is registered does not depend on its labels' values.
unfoldable pub table_metrics : List Desc
unfolding metric_desc
table_metrics =
    metric_desc (table_size_bytes "")
    ∷ metric_desc (table_live_tuples "")
    ∷ metric_desc (table_dead_tuples "")
    ∷ metric_desc (table_mod_since_analyze "")
    ∷ metric_desc (table_autovacuum_total "")
    ∷ metric_desc (table_autoanalyze_total "")
    ∷ []

unfoldable pub index_metrics : List Desc
unfolding metric_desc
index_metrics = metric_desc (index_size_bytes "" "") ∷ metric_desc (index_scans_total "" "") ∷ []

unfoldable pub pg_metrics : List Desc
unfolding wait_events_active counter_desc
pg_metrics =
    wait_events_active
    ∷ counter_desc checkpoints_timed
    ∷ counter_desc checkpoints_req
    ∷ counter_desc buffers_checkpoint
    ∷ counter_desc buffers_clean
    ∷ counter_desc buffers_backend
    ∷ counter_desc checkpoint_write_seconds
    ∷ counter_desc checkpoint_sync_seconds
    ∷ counter_desc wal_bytes_total
    ∷ counter_desc wal_records_total
    ∷ counter_desc wal_fpi_total
    ∷ counter_desc wal_buffers_full_total
    ∷ []

-- `prometheus.MustRegister`
unfoldable pub must_register : List Desc → List String → Option (List String)
must_register [] names = some names
must_register (d ∷ ds) names =
    let rest = must_register ds (d.name ∷ names) in if contains d.name names then none else rest

-- The registrations of `main`, given the descriptions of the pool's collector.
unfoldable pub register_metrics : List Desc → Bool → List String → Option (List String)
unfolding Option.bind
register_metrics pool create_indexes names = Option.bind (must_register op_metrics names) (λ n1.
    Option.bind (must_register pool n1) (λ n2. Option.bind (must_register table_metrics n2) (λ n3.
      Option.bind (must_register pg_metrics n3)
        (λ n4. if create_indexes then must_register index_metrics n4 else some n4))))

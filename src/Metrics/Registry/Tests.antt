-- ===== src/Metrics/Registry/Tests.antt =====
-- The registrations of a start with indexes, after the client's own collectors.
use pgstorm.Prelude.{true, not, ◌||◌, String, ◌≡◌, refl, some, none, false, List, [], ◌∷◌, All, pos}
use pgstorm.Db.{contains}
use pgstorm.Workload.Float.{exact}
use pgstorm.Metrics.IndexStats.{Metric}
use pgstorm.Metrics.PoolCollector.{PoolStats, describe, new_pool_collector, pool_stats}
use pgstorm.Metrics.PgStats.{Publish}
use pgstorm.Workload.Rng.{Rng}
use pgstorm.Workload.Worker.{Executor, MetricCall}
use pgstorm.Metrics.Registry.{call_desc, publish_desc, metric_desc, register_metrics}
use pgstorm.Metrics.Registry.Start.{
  Foreign, is_index_metric, pool_metrics, register_metrics-contains,
}

abbrev client : List String
client = "go_goroutines" ∷ "process_cpu_seconds_total" ∷ []

abbrev stats : PoolStats exact
stats = pool_stats exact (record {
  acquired_conns = pos 3;
  idle_conns = pos 2;
  total_conns = pos 5;
  max_conns = pos 21;
  acquire_count = pos 900;
  empty_acquire_count = pos 4;
  canceled_acquire_count = pos 1;
  acquire_duration = pos 12000000;
})

-- An executor that does nothing.
abbrev idle : Executor
idle = record {
  State = Rng;
  Error = String;
  execute = (λ op s. some (none, s));
  rng = (λ s. s);
  with_rng = (λ s g. g);
  is_skipped = (λ x. false);
  is_context_error = (λ x. false);
}

client-Foreign : All Foreign client
client-Foreign = (refl, (refl, tt))

register_metrics-contains_example :
    (names : List String) × (register_metrics (describe new_pool_collector) true client
      ≡ some names)
    × ((c : MetricCall exact idle) → contains (call_desc c).name names ≡ true)
    × All (λ d. contains d.name names ≡ true) (pool_metrics exact stats)
    × ((x : Publish exact) → contains (publish_desc x).name names ≡ true)
    × ((m : Metric) → contains (metric_desc m).name names ≡ (true || not (is_index_metric m)))
register_metrics-contains_example =
    register_metrics-contains exact idle stats true client client-Foreign

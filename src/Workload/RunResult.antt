-- ===== src/Workload/RunResult.antt =====
-- workload/result.go, `BuildRunResult`: the document of a run, from its final statistics.
--
-- Times are nanoseconds; the start and the end are the instants themselves, as they are before
-- `UTC` writes them. The totals are the map of `Finalize`, an association list.
pub mod Reports
pub mod Timeseries
mod Tests
use pgstorm.Prelude.{
  ℕ, ℤ, Bool, String, string_eq, Option, none, some, List, [], ◌∷◌, map, insert, lookup, add64,
  is_positive, sub_ℕ, sort_strings, if◌then◌else◌,
}
use pgstorm.Config.{Config}
use pgstorm.Workload.Float.{Float64, seconds}
use pgstorm.Workload.Weights.{WeightedOp}
use pgstorm.Workload.Snapshot.{DatasetSnapshot, ServerInfo}
use pgstorm.Workload.Stats.Window.{OpStats, no_stats, samples, StatsMap}
use pgstorm.Workload.Stats.Quantile.{LatencyStats, latency_stats}
use pgstorm.Workload.Stats.Series.{IntervalStats, rate}

pub record RunConfig : Type 0 where
  pub profile : String
  pub workers : ℤ
  pub min_payload_kb : ℤ
  pub max_payload_kb : ℤ
  pub toast_pct : ℤ
  pub read_payload : Bool
  pub create_indexes : Bool
  pub ring_size : ℤ
  pub delete_batch_size : ℤ
  pub user_pool_size : ℤ
  pub actor_pool_size : ℤ
  pub think_time_ms : ℤ
  pub run_duration_secs : ℤ
  pub op_weights : List (String × ℤ)

-- The weights as a map; a name that comes twice keeps its last weight.
unfoldable pub weights_map : List WeightedOp → List (String × ℤ) → List (String × ℤ)
unfolding insert
weights_map [] out = out
weights_map (o ∷ ops) out = weights_map ops (insert o.name o.weight out)

unfoldable pub run_config : Config → List WeightedOp → RunConfig
unfolding weights_map
run_config cfg ops = record {
  profile = cfg.profile;
  workers = cfg.workers;
  min_payload_kb = cfg.min_payload_kb;
  max_payload_kb = cfg.max_payload_kb;
  toast_pct = cfg.toast_pct;
  read_payload = cfg.read_payload;
  create_indexes = cfg.create_indexes;
  ring_size = cfg.ring_size;
  delete_batch_size = cfg.delete_batch_size;
  user_pool_size = cfg.user_pool_size;
  actor_pool_size = cfg.actor_pool_size;
  think_time_ms = cfg.think_time_ms;
  run_duration_secs = cfg.run_duration_secs;
  op_weights = weights_map ops [];
}

-- `totals[op]`; a missing name reads as no statistics.
abbrev pub value_or_none : Option OpStats → OpStats
value_or_none none = no_stats
value_or_none (some s) = s

unfoldable pub stats_at : StatsMap → String → OpStats
unfolding lookup
stats_at totals op = value_or_none (lookup op totals)

abbrev pub names : StatsMap → List String
names = map λ e. e.0

module _ (F : Float64) where
  open F use {Float}

  pub record OpResult : Type 0 where
    pub op : String
    pub count : ℕ
    pub errors : ℕ
    pub ops_per_sec : Float
    pub latency : Option (LatencyStats Float)

  pub record RunTotals : Type 0 where
    pub ops : ℕ
    pub errors : ℕ
    pub ops_per_sec : Float

  pub record RunMeta : Type 0 where
    pub dataset : Option DatasetSnapshot
    pub server : Option ServerInfo
    pub stopped_by : String
    pub timeseries : List (IntervalStats F)

  pub record RunResult : Type 0 where
    pub profile : String
    pub started_at : ℕ
    pub ended_at : ℕ
    pub duration_seconds : Float
    pub stopped_by : String
    pub config : RunConfig
    pub totals : RunTotals
    pub operations : List OpResult
    pub timeseries : List (IntervalStats F)
    pub dataset : Option DatasetSnapshot
    pub server : Option ServerInfo

  -- The entry of one operation; `duration` is in seconds.
  unfoldable pub op_result : Float → String → OpStats → OpResult
  unfolding rate samples latency_stats
  op_result duration op s = record {
    op = op;
    count = s.count;
    errors = s.errors;
    ops_per_sec = rate F s.count duration;
    latency = if is_positive (samples s) then some (latency_stats F s) else none;
  }

  -- The loop over the names, with the totals so far.
  unfoldable pub build_operations : Float → StatsMap → List String → ℕ → ℕ → (ℕ × ℕ) × List OpResult
  unfolding op_result stats_at
  build_operations duration totals [] ops errors = ((ops, errors), [])
  build_operations duration totals (op ∷ rest) ops errors =
      let s = stats_at totals op in
      let (sums, results) =
        build_operations duration totals rest (add64 ops s.count) (add64 errors s.errors) in
      (sums, op_result duration op s ∷ results)

  -- `BuildRunResult`
  unfoldable pub build_run_result :
      StatsMap → ℕ → ℕ → Config → List WeightedOp → RunMeta → RunResult
  unfolding build_operations run_config sort_strings rate
  build_run_result totals started ended cfg ops meta =
      let duration = seconds F (sub_ℕ ended started) in
      let (sums, operations) = build_operations duration totals (sort_strings (names totals)) 0 0 in
      record {
        profile = cfg.profile;
        started_at = started;
        ended_at = ended;
        duration_seconds = duration;
        stopped_by = meta.stopped_by;
        config = run_config cfg ops;
        totals = record { ops = sums.0; errors = sums.1; ops_per_sec = rate F sums.0 duration };
        operations = operations;
        timeseries = meta.timeseries;
        dataset = meta.dataset;
        server = meta.server;
      }

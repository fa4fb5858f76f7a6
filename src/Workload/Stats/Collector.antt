-- ===== src/Workload/Stats/Collector.antt =====
-- workload/stats.go, `StatsCollector`: windows drained from every worker into the run's totals.
--
-- A collector keeps its workers' windows by value: worker `i` records into entry `i`. `drain` holds
-- the collector's mutex and takes each worker's in turn; it is one atomic step here: a
-- record that falls between two workers' turns stands before or after the whole drain. Times are nanoseconds of the monotonic clock.
use pgstorm.Prelude.{
  ℕ, Bool, String, Option, none, some, List, [], ◌∷◌, ◌++◌, add64, adjust, string_eq, nat_eq,
  get_elem?, set,
}
use pgstorm.Workload.Float.{Float64}
use pgstorm.Workload.Stats.Window.{OpStats, StatsMap, add_at, new_worker_stats, record_op, snapshot}
use pgstorm.Workload.Stats.Series.{IntervalStats, Series, record_interval}

unfoldable pub merge_latencies : List (ℕ × ℕ) → List (ℕ × ℕ) → List (ℕ × ℕ)
merge_latencies dst [] = dst
merge_latencies dst ((us, n) ∷ src) = merge_latencies (add_at us n dst) src

-- `mergeInto`
unfoldable pub merge_into : OpStats → OpStats → OpStats
unfolding merge_latencies
merge_into dst src = record {
  count = add64 dst.count src.count;
  errors = add64 dst.errors src.errors;
  latencies = merge_latencies dst.latencies src.latencies;
}

-- Every entry of `src` is merged into the one of its name in `dst`; a name that `dst` lacks is
-- passed over. The order of the entries makes no difference to any reading.
unfoldable pub fold_in : StatsMap → StatsMap → StatsMap
fold_in dst [] = dst
fold_in dst ((op, s) ∷ src) = fold_in (adjust op (λ m. merge_into m s) dst) src

-- The windows of all workers folded into one, and the workers' windows after it.
unfoldable pub drain_workers : StatsMap → List StatsMap → StatsMap × List StatsMap
drain_workers merged [] = (merged, [])
drain_workers merged (ws ∷ rest) =
    let (taken, left) = snapshot ws in
    let (all, lefts) = drain_workers (fold_in merged taken) rest in (all, left ∷ lefts)

module _ (F : Float64) where
  open F use {Float}

  pub record StatsCollector : Type 0 where
    pub workers : List StatsMap
    pub total : StatsMap
    pub series : Series F

  -- `NewStatsCollector`
  unfoldable pub new_collector : List String → ℕ → StatsCollector
  new_collector ops now = record {
    workers = [];
    total = new_worker_stats ops;
    series = record { ops = ops; start = now; last_boundary = now; intervals = [] };
  }

  -- `NewWorkerStats`; the worker's number is how many there were.
  unfoldable pub register_worker : StatsCollector → StatsCollector
  register_worker c = record c { workers = c.workers ++ (new_worker_stats c.series.ops ∷ []) }

  replace_worker : StatsCollector → ℕ → Option StatsMap → Option StatsCollector
  replace_worker c i none = none
  replace_worker c i (some ws) = some (record c { workers = set c.workers i ws })

  record_in : StatsCollector → ℕ → String → Float → Bool → Option StatsMap → Option StatsCollector
  record_in c i op duration failed none = none
  record_in c i op duration failed (some ws) =
      replace_worker c i (record_op F op duration failed ws)

  -- `Record`, called by worker `i`.
  unfoldable pub worker_records : StatsCollector → ℕ → String → Float → Bool → Option StatsCollector
  unfolding record_in replace_worker
  worker_records c i op duration failed = record_in c i op duration failed (get_elem? c.workers i)

  -- `drain`: the merged window, and the collector after it.
  unfoldable pub drain : ℕ → StatsCollector → StatsMap × StatsCollector
  drain now c =
      let (merged, left) = drain_workers (new_worker_stats c.series.ops) c.workers in
      (
        merged,
        record c {
          workers = left;
          total = fold_in c.total merged;
          series = record_interval F now merged c.series;
        },
      )

  -- `Finalize`, at the time `now`: the totals and the series that the result is built from.
  unfoldable pub finalize :
      ℕ → StatsCollector → (StatsMap × List (IntervalStats F)) × StatsCollector
  unfolding drain
  finalize now c = let (merged, done) = drain now c in ((done.total, done.series.intervals), done)

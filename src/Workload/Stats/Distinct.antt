-- ===== src/Workload/Stats/Distinct.antt =====
-- The maps of a run have one entry for each operation.
use pgstorm.Prelude.{
  ℕ, zero, suc, String, string_eq, some, ◌≡◌, List, [], ◌∷◌, adjust, DistinctKeys,
  insert-DistinctKeys, adjust-DistinctKeys,
}
use pgstorm.Workload.Float.{Float64}
use pgstorm.Workload.Stats.Window.{no_stats, StatsMap, new_worker_stats}
use pgstorm.Workload.Stats.Collector.{
  merge_into, fold_in, drain_workers, StatsCollector, new_collector, register_worker, drain,
  finalize,
}
use pgstorm.Workload.Stats.Run.{
  Event, records, drains, step, run, started, worker_records-inv, run-invariant,
}

pub new_worker_stats-DistinctKeys : (ops : List String) → DistinctKeys (new_worker_stats ops)
unfolding new_worker_stats
new_worker_stats-DistinctKeys [] = tt
new_worker_stats-DistinctKeys (op ∷ ops) =
    insert-DistinctKeys op no_stats (new_worker_stats ops) (new_worker_stats-DistinctKeys ops)

pub fold_in-DistinctKeys : (dst src : StatsMap) → DistinctKeys dst → DistinctKeys (fold_in dst src)
unfolding fold_in
fold_in-DistinctKeys dst [] d = d
fold_in-DistinctKeys dst ((k, s) ∷ src) d =
    fold_in-DistinctKeys (adjust k (λ m. merge_into m s) dst) src
      (adjust-DistinctKeys k (λ m. merge_into m s) dst d)

module _ (F : Float64) where
  drain-DistinctKeys :
      (now : ℕ) (c : StatsCollector F) → DistinctKeys c.total → DistinctKeys (drain F now c).1.total
  unfolding drain
  drain-DistinctKeys now c d =
      fold_in-DistinctKeys c.total (drain_workers (new_worker_stats c.series.ops) c.workers).0 d

  step-DistinctKeys :
      (c d : StatsCollector F) (e : Event F)
      → step F c e ≡ some d
      → DistinctKeys c.total
      → DistinctKeys d.total
  unfolding step
  step-DistinctKeys c d (records i k duration failed) h a =
      let (ws, ws', at, done, e) = worker_records-inv F c d i k duration failed h in rw e a
  step-DistinctKeys c d (drains now) h a =
      let same : (drain F now c).1 ≡ d = cc in rw (← same) (drain-DistinctKeys now c a)

  started-DistinctKeys :
      (ops : List String) (start workers : ℕ) → DistinctKeys (started F ops start workers).total
  unfolding started new_collector register_worker
  started-DistinctKeys ops start zero = new_worker_stats-DistinctKeys ops
  started-DistinctKeys ops start (suc n) = started-DistinctKeys ops start n

  -- After a run from the start and `Finalize`, the totals have one entry for each of their names.
  pub finalize-DistinctKeys :
      (ops : List String) (start workers now : ℕ) (es : List (Event F)) {c : StatsCollector F}
      → run F (started F ops start workers) es ≡ some c
      → DistinctKeys (finalize F now c).0.0
  unfolding finalize
  finalize-DistinctKeys ops start workers now es {c} h = drain-DistinctKeys now c (
      run-invariant F (λ c. DistinctKeys c.total) step-DistinctKeys (started F ops start workers) c
        es h (started-DistinctKeys ops start workers))

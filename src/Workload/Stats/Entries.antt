-- ===== src/Workload/Stats/Entries.antt =====
-- The entries of a map of statistics, one for each operation.
use pgstorm.Prelude.{
  ℕ, zero, suc, Bool, false, String, string_eq, none, some, ◌≡◌, refl, sym, ◌∙◌, List, [], ◌∷◌,
  lookup, DistinctKeys, count_if, if◌then◌else◌, arith,
}
use pgstorm.Workload.Float.{Float64}
use pgstorm.Workload.Stats.Window.{StatsMap, new_worker_stats}
use pgstorm.Workload.Stats.Collector.{
  StatsCollector, new_collector, register_worker, drain_workers, drain, finalize,
}
use pgstorm.Workload.Stats.Conserve.{has, has-fold_in, measure}
use pgstorm.Workload.Stats.Readings.{Reading, reading_count}
use pgstorm.Workload.Stats.Run.{
  Event, records, drains, step, run, started, worker_records-inv, run-invariant,
}
use pgstorm.Workload.RunResult.{stats_at, names}

has-absent : (k : String) (m : StatsMap) → lookup k m ≡ none → has k m ≡ false
unfolding lookup
has-absent k [] h = refl
has-absent k ((j, s) ∷ m) h = ground (arith, has-absent k m)

-- A name occurs once among the names of a map that has it, and not among those of another.
pub count_if-names :
    (k : String) (m : StatsMap)
    → DistinctKeys m
    → count_if (λ j. string_eq.beq j k) (names m) ≡ (if has k m then 1 else 0)
count_if-names k [] d = refl
count_if-names k ((j, s) ∷ m) d =
    ground (arith, string_eq.beq_iff j k, has-absent j m d.0, count_if-names k m d.1)

module _ (R : Reading) where
  open R use {read, read-no_stats}

  measure-absent : (k : String) (m : StatsMap) → lookup k m ≡ none → measure R k m ≡ 0
  unfolding lookup
  measure-absent k [] h = refl
  measure-absent k ((j, s) ∷ m) h = ground (arith, measure-absent k m)

  -- The reading of a name is that of its entry.
  pub measure-stats_at :
      (k : String) (m : StatsMap) → DistinctKeys m → measure R k m ≡ read (stats_at m k)
  unfolding stats_at lookup
  measure-stats_at k [] d = sym read-no_stats
  measure-stats_at k ((j, s) ∷ m) d =
      ground (arith, string_eq.beq_iff j k, measure-absent j m d.0, measure-stats_at k m d.1)

module _ (F : Float64) where
  drain-has :
      (k : String) (now : ℕ) (c : StatsCollector F) → has k (drain F now c).1.total ≡ has k c.total
  unfolding drain
  drain-has k now c =
      has-fold_in reading_count k c.total
        (drain_workers (new_worker_stats c.series.ops) c.workers).0

  step-has :
      (k : String) (b : Bool) (c d : StatsCollector F) (e : Event F)
      → step F c e ≡ some d
      → has k c.total ≡ b
      → has k d.total ≡ b
  unfolding step
  step-has k b c d (records i j duration failed) h a =
      let (ws, ws', at, done, e) = worker_records-inv F c d i j duration failed h in rw e a
  step-has k b c d (drains now) h a =
      let same : (drain F now c).1 ≡ d = cc in rw (← same) (drain-has k now c ∙ a)

  started-has :
      (k : String) (ops : List String) (start workers : ℕ)
      → has k (started F ops start workers).total ≡ has k (new_worker_stats ops)
  unfolding started new_collector register_worker
  started-has k ops start zero = refl
  started-has k ops start (suc n) = started-has k ops start n

  -- After a run from the start and `Finalize`, the totals have the operations of the profile.
  pub finalize-has :
      (k : String) (ops : List String) (start workers now : ℕ) (es : List (Event F))
      {c : StatsCollector F}
      → run F (started F ops start workers) es ≡ some c
      → has k (finalize F now c).0.0 ≡ has k (new_worker_stats ops)
  unfolding finalize
  finalize-has k ops start workers now es {c} h =
      drain-has k now c
      ∙ run-invariant F (λ c. has k c.total ≡ has k (new_worker_stats ops)) (step-has k _)
          (started F ops start workers) c es h (started-has k ops start workers)

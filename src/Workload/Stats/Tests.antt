-- ===== src/Workload/Stats/Tests.antt =====
-- The statistics on concrete runs, in exact arithmetic.
use pgstorm.Prelude.{
  ◌^◌, ◌+◌, pos, insert, All, arith, ◌%◌, ◌*◌, word, true, false, String, some, ◌≡◌, refl, List, [],
  ◌∷◌, sum64, ℕ, ◌-◌, ◌≤◌, Bool, get_elem?, count_if, sum_by, lookup, nat_eq, DistinctKeys,
  if◌then◌else◌,
}
use pgstorm.Workload.Float.{exact, million}
use pgstorm.Workload.Stats.Window.{OpStats, samples, new_worker_stats, record_us}
use pgstorm.Workload.Stats.Quantile.{percentile, ms, rank_of}
use pgstorm.Workload.Stats.NearestRank.{Ascending, all_observations, percentile-expand}
use pgstorm.Workload.Stats.Series.{counts}
use pgstorm.Workload.Stats.Sums.{series_ops}
use pgstorm.Workload.Stats.Collector.{StatsCollector, finalize, merge_into}
use pgstorm.Workload.Stats.Readings.{
  reading_count, reading_errors, reading_samples, Adds, record_us-Adds, merge_into-Adds,
}
use pgstorm.Workload.Stats.Conserve.{measure, has}
use pgstorm.Workload.Stats.Run.{Event, records, drains, run, started, tally}
use pgstorm.Workload.Stats.Balance.{finalize-Adds}
use pgstorm.Workload.Stats.Progress.{run-finalize, Valid}

abbrev ops : List String
ops = "insert" ∷ "read" ∷ []

abbrev history : List (Event exact)
history =
    records 0 "insert" (3 * 1000) false
    ∷ drains (2 * 10 ^ 9)
    ∷ records 1 "read" (5 * 1000) false
    ∷ records 0 "insert" 7 true
    ∷ drains (4 * 10 ^ 9)
    ∷ records 1 "read" (9 * 1000) false
    ∷ []

insert_known : has "insert" (new_worker_stats ops) ≡ true
unfolding new_worker_stats insert
insert_known = refl

valid : All (Valid exact ops 2) history
unfolding new_worker_stats insert
valid = (
  (omega arith, refl),
  (tt, ((omega arith, refl), ((omega arith, refl), (tt, ((omega arith, refl), tt))))),
)

abbrev one_of_each : OpStats
one_of_each = record { count = 2; errors = 1; latencies = (40, 1) ∷ [] }

-- The median of three latencies is the second, whatever their order.
median :
    percentile exact
      (record { count = 3; errors = 0; latencies = (9000, 1) ∷ (2000, 1) ∷ (5000, 1) ∷ [] })
      (exact.ratio 1 2)
    ≡ 5 * million
unfolding percentile
median = refl

run-finalize_example :
    (c : StatsCollector exact) × (run exact (started exact ops 0 2) history ≡ some c)
    × (measure reading_count "insert" (finalize exact (5 * 10 ^ 9) c).0.0 % word
        ≡ tally exact reading_count "insert" history % word)
    × (series_ops exact (finalize exact (5 * 10 ^ 9) c).0.1 % word
        ≡ sum64 (counts (finalize exact (5 * 10 ^ 9) c).0.0) % word)
run-finalize_example =
    run-finalize exact reading_count ops "insert" 0 2 (5 * 10 ^ 9) history insert_known valid

finalize-Adds_example :
    (c : StatsCollector exact) × (run exact (started exact ops 0 2) history ≡ some c)
    × ((measure reading_samples "insert" (finalize exact (5 * 10 ^ 9) c).0.0
            + measure reading_errors "insert" (finalize exact (5 * 10 ^ 9) c).0.0)
          % word
        ≡ measure reading_count "insert" (finalize exact (5 * 10 ^ 9) c).0.0 % word)
finalize-Adds_example = finalize-Adds exact ops "insert" 0 2 (5 * 10 ^ 9) history insert_known valid

one_of_each-Adds : Adds one_of_each
unfolding samples
one_of_each-Adds = refl

doubled-Adds : Adds (merge_into one_of_each one_of_each)
doubled-Adds = merge_into-Adds one_of_each one_of_each one_of_each-Adds one_of_each-Adds

one_more-Adds : Adds (record_us (pos 12) false one_of_each)
one_more-Adds = record_us-Adds (pos 12) false one_of_each one_of_each-Adds

abbrev three_latencies : OpStats
three_latencies = record {
  count = 3;
  errors = 0;
  latencies = (9000, 1) ∷ (2000, 1) ∷ (5000, 1) ∷ [];
}

three_latencies-DistinctKeys : DistinctKeys three_latencies.latencies
unfolding lookup
three_latencies-DistinctKeys = (refl, (refl, (refl, tt)))

percentile-expand_example :
    (v : ℕ) × (percentile exact three_latencies 990000 ≡ ms exact v)
    × (get_elem? (all_observations three_latencies) (rank_of exact 990000 3 - 1) ≡ some v)
    × (1 ≤ rank_of exact 990000 3)
    × (rank_of exact 990000 3 ≤ 3)
    × Ascending (all_observations three_latencies)
    × ((p : ℕ → Bool)
        → count_if p (all_observations three_latencies)
          ≡ sum_by (λ e. if p e.0 then e.1 else 0) three_latencies.latencies)
percentile-expand_example =
    percentile-expand exact three_latencies 990000 three_latencies-DistinctKeys (omega arith)
      (omega arith)

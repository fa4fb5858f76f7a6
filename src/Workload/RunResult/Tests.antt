-- ===== src/Workload/RunResult/Tests.antt =====
-- A document from concrete statistics.
use pgstorm.Prelude.{
  ◌*◌, ◌^◌, ◌%◌, true, false, String, string_eq, none, some, ◌≡◌, refl, List, [], ◌∷◌, map, All,
  word, insert, lookup, DistinctKeys, arith,
}
use pgstorm.Config.{Config, read_config}
use pgstorm.Workload.Float.{exact}
use pgstorm.Workload.Stats.Window.{StatsMap, new_worker_stats}
use pgstorm.Workload.Stats.Sums.{series_ops}
use pgstorm.Workload.Stats.Collector.{StatsCollector, finalize}
use pgstorm.Workload.Stats.Run.{Event, records, drains, run, started}
use pgstorm.Workload.Stats.Progress.{Valid}
use pgstorm.Workload.RunResult.{RunMeta, build_run_result}
use pgstorm.Workload.RunResult.Reports.{Reports, build_run_result-Reports}
use pgstorm.Workload.RunResult.Timeseries.{final_result, final_result-Reports}

abbrev defaults : Config
defaults = read_config (λ k. "")

abbrev meta : RunMeta exact
meta = record { dataset = none; server = none; stopped_by = "signal"; timeseries = [] }

-- Every attempt at an insert failed.
abbrev totals : StatsMap
totals =
    ("read", record { count = 2; errors = 0; latencies = (40, 2) ∷ [] })
    ∷ ("insert", record { count = 3; errors = 3; latencies = [] })
    ∷ []

in_order :
    map (λ o. o.count) (build_run_result exact totals 0 (2 * 10 ^ 9) defaults [] meta).operations
    ≡ 3 ∷ 2 ∷ []
unfolding build_run_result
in_order = refl

names_in_order :
    map (λ o. o.op) (build_run_result exact totals 0 (2 * 10 ^ 9) defaults [] meta).operations
    ≡ "insert" ∷ "read" ∷ []
unfolding build_run_result
names_in_order = refl

totals-DistinctKeys : DistinctKeys totals
unfolding lookup
totals-DistinctKeys = (refl, (refl, tt))

totals-Reported :
    Reports exact totals (build_run_result exact totals 0 (2 * 10 ^ 9) defaults [] meta)
totals-Reported =
    build_run_result-Reports exact totals 0 (2 * 10 ^ 9) defaults [] meta totals-DistinctKeys

abbrev ops : List String
ops = "insert" ∷ "read" ∷ []

abbrev history : List (Event exact)
history =
    records 0 "insert" 40 false
    ∷ drains (2 * 10 ^ 9)
    ∷ records 1 "read" (5 * 1000) false
    ∷ records 1 "read" 10 true
    ∷ []

valid : All (Valid exact ops 2) history
unfolding new_worker_stats insert
valid = ((omega arith, refl), (tt, ((omega arith, refl), ((omega arith, refl), tt))))

final_result-Reports_example :
    (c : StatsCollector exact) × (run exact (started exact ops 0 2) history ≡ some c)
    × Reports exact
        (finalize exact (5 * 10 ^ 9) c).0.0
        (final_result exact c (5 * 10 ^ 9) (6 * 10 ^ 9) defaults [] meta)
    × (series_ops exact (final_result exact c (5 * 10 ^ 9) (6 * 10 ^ 9) defaults [] meta).timeseries
          % word
        ≡ (final_result exact c (5 * 10 ^ 9) (6 * 10 ^ 9) defaults [] meta).totals.ops % word)
final_result-Reports_example =
    final_result-Reports exact ops 0 2 (5 * 10 ^ 9) (6 * 10 ^ 9) history defaults [] meta valid

-- ===== src/Workload/Console/Tests.antt =====
-- The console's numbers.
use pgstorm.Prelude.{
  ℕ, ◌≤◌, pos, negsuc, some, ◌≡◌, refl, List, [], ◌∷◌, none, ◌++◌, length, All, codes, digits_value,
  arith, map, sum64, ◌%◌, word, insert, adjust,
}
use pgstorm.Workload.Float.{exact}
use pgstorm.Workload.Stats.Collector.{
  StatsCollector, new_collector, register_worker, drain_workers, fold_in, merge_into,
}
use pgstorm.Workload.Stats.Window.{new_worker_stats, snapshot}
use pgstorm.Workload.Console.Totals.{print-sums}
use pgstorm.Workload.Stats.Run.{started}
use pgstorm.Workload.Console.{commaf, print}
use pgstorm.Workload.Console.Grouping.{with_commas, joined_groups, IsTriple, commaf-digits_value}

grouped : commaf (pos 1234567) ≡ some (codes "1,234,567")
unfolding commaf
grouped = refl

short : commaf (pos 0) ≡ some (codes "0")
unfolding commaf
short = refl

-- A sign counts as a digit.
negative : commaf (negsuc 123455) ≡ some (codes "-,123,456")
unfolding commaf
negative = refl

commaf-digits_value_example :
    (g : List ℕ) × (gs : List (List ℕ)) × (commaf (pos 1234567) ≡ some (g ++ with_commas gs))
    × (1 ≤ length g)
    × (length g ≤ 3)
    × All IsTriple gs
    × (digits_value 0 (g ++ joined_groups gs) ≡ some 1234567)
commaf-digits_value_example = commaf-digits_value 1234567 (omega arith)

-- Of two operations, one has been recorded.
abbrev recorded : StatsCollector exact
recorded = record (started exact ("insert" ∷ "read" ∷ []) 0 1) {
  workers = (("read", record { count = 3; errors = 1; latencies = (7, 2) ∷ [] }) ∷ []) ∷ [];
}

print-sums_example :
    (map (λ r. r.op) (print exact 5 (pos 5) none recorded).0.rows ≡ "insert" ∷ "read" ∷ [])
    × ((print exact 5 (pos 5) none recorded).0.total_ops % word
        ≡ sum64 (map (λ r. r.count) (print exact 5 (pos 5) none recorded).0.rows) % word)
    × ((print exact 5 (pos 5) none recorded).0.total_errors % word
        ≡ sum64 (map (λ r. r.errors) (print exact 5 (pos 5) none recorded).0.rows) % word)
unfolding started new_collector register_worker new_worker_stats insert
print-sums_example = print-sums exact 5 (pos 5) none recorded (refl, (refl, tt))

counted : (print exact 5 (pos 5) none recorded).0.total_ops ≡ 3
unfolding print started new_collector register_worker new_worker_stats insert drain_workers snapshot
    adjust fold_in merge_into
counted = refl

-- ===== src/Workload/Console/Totals.antt =====
-- The totals line of a summary and its rows.
use pgstorm.Prelude.{
  ℕ, ◌%◌, word, ℤ, false, String, string_eq, Option, ◌≡◌, refl, ap, sym, ◌∙◌, List, [], ◌∷◌, ◌++◌,
  map, sum64, sum64-append, adjust, insert, DistinctKeys, arith,
}
use mathlib.Core.List.{map-append, map-map, map-id}
use pgstorm.Metrics.PoolCollector.{Stat}
use pgstorm.Workload.Float.{Float64, seconds}
use pgstorm.Workload.Stats.Window.{OpStats, no_stats, StatsMap, new_worker_stats, snapshot}
use pgstorm.Workload.Stats.Collector.{merge_into, fold_in, drain_workers, StatsCollector, drain}
use pgstorm.Workload.Stats.Conserve.{has}
use pgstorm.Workload.Stats.Distinct.{new_worker_stats-DistinctKeys, fold_in-DistinctKeys}
use pgstorm.Workload.RunResult.{stats_at, names}
use pgstorm.Workload.RunResult.Reports.{map-stats_at}
use pgstorm.Workload.Console.{SummaryRow, summary_row, print}

-- No name occurs twice.
abbrev pub Distinct : List String → Type 0
Distinct [] = Unit
Distinct (op ∷ ops) = (has op (new_worker_stats ops) ≡ false) × Distinct ops

names-insert :
    (op : String) (m : StatsMap)
    → has op m ≡ false
    → names (insert op no_stats m) ≡ names m ++ (op ∷ [])
unfolding insert
names-insert op [] h = refl
names-insert op ((j, s) ∷ m) h = ground (arith, names-insert op m)

names-adjust : (k : String) (f : OpStats → OpStats) (m : StatsMap) → names (adjust k f m) ≡ names m
unfolding adjust
names-adjust k f [] = refl
names-adjust k f ((j, s) ∷ m) = ground (arith, names-adjust k f m)

names-fold_in : (dst src : StatsMap) → names (fold_in dst src) ≡ names dst
unfolding fold_in
names-fold_in dst [] = refl
names-fold_in dst ((k, s) ∷ src) =
    names-fold_in (adjust k (λ m. merge_into m s) dst) src
    ∙ names-adjust k (λ m. merge_into m s) dst

names-drain_workers : (m : StatsMap) (ws : List StatsMap) → names (drain_workers m ws).0 ≡ names m
unfolding drain_workers
names-drain_workers m [] = refl
names-drain_workers m (w ∷ ws) =
    names-drain_workers (fold_in m (snapshot w).0) ws ∙ names-fold_in m (snapshot w).0

drain_workers-DistinctKeys :
    (m : StatsMap) (ws : List StatsMap) → DistinctKeys m → DistinctKeys (drain_workers m ws).0
unfolding drain_workers
drain_workers-DistinctKeys m [] d = d
drain_workers-DistinctKeys m (w ∷ ws) d =
    drain_workers-DistinctKeys (fold_in m (snapshot w).0) ws
      (fold_in-DistinctKeys m (snapshot w).0 d)

-- A sum over the entries of a new window is one over its names, in whatever order.
sum-new_worker_stats :
    (g : String → ℕ) (ops : List String)
    → Distinct ops
    → sum64 (map g (names (new_worker_stats ops))) % word ≡ sum64 (map g ops) % word
unfolding new_worker_stats
sum-new_worker_stats g [] d = refl
sum-new_worker_stats g (op ∷ ops) d =
    let kept : names (insert op no_stats (new_worker_stats ops))
        ≡ names (new_worker_stats ops) ++ (op ∷ []) =
      names-insert op (new_worker_stats ops) d.0 in
    rw (kept, map-append g (names (new_worker_stats ops)) (op ∷ []))
      (omega (
        arith,
        sum64-append (map g (names (new_worker_stats ops))) (g op ∷ []),
        sum-new_worker_stats g ops d.1,
      ))

module _ (F : Float64) where
  merged_of : StatsCollector F → StatsMap
  merged_of c = (drain_workers (new_worker_stats c.series.ops) c.workers).0

  sum-merged :
      (f : OpStats → ℕ) (c : StatsCollector F)
      → Distinct c.series.ops
      → sum64 (map (λ e. f e.1) (merged_of c)) % word
        ≡ sum64 (map (λ op. f (stats_at (merged_of c) op)) c.series.ops) % word
  unfolding merged_of
  sum-merged f c d =
      let m = merged_of c in
      let start = new_worker_stats c.series.ops in
      let at =
        map-stats_at f m (
          drain_workers-DistinctKeys start c.workers
            (new_worker_stats-DistinctKeys c.series.ops)) in
      let same : names m ≡ names start = names-drain_workers start c.workers in
      ap (λ l. sum64 l % word) (sym at)
      ∙ ap (λ l. sum64 (map (λ op. f (stats_at m op)) l) % word) same
      ∙ sum-new_worker_stats (λ op. f (stats_at m op)) c.series.ops d

  -- When no operation has two names, a summary has a row for each operation, in the order of the
  -- profile, and its line of totals counts as many operations and errors as its rows (modulo 2^64).
  pub print-sums :
      (now : ℕ) (window : ℤ) (pool : Option Stat) (c : StatsCollector F)
      → Distinct c.series.ops
      → (map (λ r. r.op) (print F now window pool c).0.rows ≡ c.series.ops)
        × ((print F now window pool c).0.total_ops % word
            ≡ sum64 (map (λ r. r.count) (print F now window pool c).0.rows) % word)
        × ((print F now window pool c).0.total_errors % word
            ≡ sum64 (map (λ r. r.errors) (print F now window pool c).0.rows) % word)
  unfolding print summary_row drain merged_of
  print-sums now window pool c d =
      let row = summary_row F (seconds F window) (merged_of c) in
      let ops = c.series.ops in
      (
        map-map (λ (r : SummaryRow F). r.op) row ops ∙ map-id ops,
        sum-merged (λ s. s.count) c d
            ∙ ap (λ l. sum64 l % word) (sym (map-map (λ (r : SummaryRow F). r.count) row ops)),
        sum-merged (λ s. s.errors) c d
            ∙ ap (λ l. sum64 l % word) (sym (map-map (λ (r : SummaryRow F). r.errors) row ops)),
      )

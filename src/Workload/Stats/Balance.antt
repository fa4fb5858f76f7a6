-- ===== src/Workload/Stats/Balance.antt =====
-- The samples and the errors of a run make up its operations.
use pgstorm.Prelude.{
  ℕ, ◌+◌, ◌%◌, word, true, false, String, string_eq, some, ◌≡◌, List, [], ◌∷◌, All, arith,
}
use pgstorm.Workload.Float.{Float64}
use pgstorm.Workload.Stats.Window.{new_worker_stats}
use pgstorm.Workload.Stats.Collector.{StatsCollector, finalize}
use pgstorm.Workload.Stats.Conserve.{has, measure}
use pgstorm.Workload.Stats.Readings.{reading_count, reading_errors, reading_samples}
use pgstorm.Workload.Stats.Run.{Event, records, drains, run, started, tally, finalize-tally}
use pgstorm.Workload.Stats.Progress.{Valid, run-finalize}

module _ (F : Float64) where
  tally-Adds :
      (op : String) (es : List (Event F))
      → tally F reading_samples op es + tally F reading_errors op es ≡ tally F reading_count op es
  unfolding reading_count reading_errors reading_samples
  tally-Adds op [] = omega arith
  tally-Adds op (records i k d true ∷ es) = ground (arith, tally-Adds op es)
  tally-Adds op (records i k d false ∷ es) = ground (arith, tally-Adds op es)
  tally-Adds op (drains now ∷ es) = tally-Adds op es

  -- From the start, with workers that record under their own number and operations of the profile
  -- only, every interleaving of their records with drains runs to its end; and after `Finalize` the
  -- latencies observed of an operation and its errors add up to its count (modulo 2^64).
  pub finalize-Adds :
      (ops : List String) (op : String) (start n now : ℕ) (es : List (Event F))
      → has op (new_worker_stats ops) ≡ true
      → All (Valid F ops n) es
      → (c : StatsCollector F) × (run F (started F ops start n) es ≡ some c)
        × ((measure reading_samples op (finalize F now c).0.0
                + measure reading_errors op (finalize F now c).0.0)
              % word
            ≡ measure reading_count op (finalize F now c).0.0 % word)
  finalize-Adds ops op start n now es known v =
      let (c, done, counts, series) = run-finalize F reading_count ops op start n now es known v in
      (
        c,
        done,
        omega (
          arith,
          counts,
          finalize-tally F reading_errors op ops start n now es known done,
          finalize-tally F reading_samples op ops start n now es known done,
          tally-Adds op es,
        ),
      )

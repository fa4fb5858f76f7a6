-- ===== src/Workload/RunResult/Timeseries.antt =====
-- A result's series against its totals.
use pgstorm.Prelude.{ℕ, ◌%◌, String, some, ◌≡◌, ◌∙◌, sym, List, All, word}
use pgstorm.Config.{Config}
use pgstorm.Workload.Float.{Float64}
use pgstorm.Workload.Weights.{WeightedOp}
use pgstorm.Workload.Stats.Sums.{series_ops}
use pgstorm.Workload.Stats.Collector.{StatsCollector, finalize}
use pgstorm.Workload.Stats.Run.{Event, run, started}
use pgstorm.Workload.Stats.Agree.{finalize-series_ops}
use pgstorm.Workload.Stats.Progress.{Valid, run-some, started-Ready}
use pgstorm.Workload.Stats.Distinct.{finalize-DistinctKeys}
use pgstorm.Workload.RunResult.{RunMeta, RunResult, build_run_result}
use pgstorm.Workload.RunResult.Reports.{Reports, build_run_result-Reports}

module _ (F : Float64) where
  -- The document that `main` builds from what `Finalize` returns.
  unfoldable pub final_result :
      StatsCollector F → ℕ → ℕ → Config → List WeightedOp → RunMeta F → RunResult F
  final_result c now ended cfg wops meta =
      build_run_result F (finalize F now c).0.0 c.series.start ended cfg wops
        (record meta { timeseries = (finalize F now c).0.1 })

  -- Workers that record under their own number, and operations of the profile only, never panic:
  -- whatever the interleaving of their records with drains, the run comes to its end, the document
  -- that follows reports the final totals, and the operations of its series add up to its total, in
  -- the arithmetic of `int64`.
  pub final_result-Reports :
      (ops : List String) (start n now ended : ℕ) (es : List (Event F)) (cfg : Config)
      (wops : List WeightedOp) (meta : RunMeta F)
      → All (Valid F ops n) es
      → (c : StatsCollector F) × (run F (started F ops start n) es ≡ some c)
        × Reports F (finalize F now c).0.0 (final_result c now ended cfg wops meta)
        × (series_ops F (final_result c now ended cfg wops meta).timeseries % word
            ≡ (final_result c now ended cfg wops meta).totals.ops % word)
  unfolding final_result build_run_result
  final_result-Reports ops start n now ended es cfg wops meta v =
      let (c, h) = run-some F ops n (started F ops start n) es (started-Ready F ops start n) v in
      let meta' : RunMeta F = record meta { timeseries = (finalize F now c).0.1 } in
      let r : Reports F (finalize F now c).0.0
          (build_run_result F (finalize F now c).0.0 c.series.start ended cfg wops meta') =
        build_run_result-Reports F (finalize F now c).0.0 c.series.start ended cfg wops meta'
          (finalize-DistinctKeys F ops start n now es h) in
      (c, h, r, finalize-series_ops F ops start n now es h ∙ sym r.all_ops)

-- ===== src/Workload/Fleet/Document.antt =====
-- The document of a run, as `main` builds it after the workers, against what the metrics publish.
use pgstorm.Prelude.{
  ℕ, ◌+◌, ◌≤◌, ◌%◌, word, Bool, true, String, string_eq, some, ◌≡◌, sym, ap, ◌∙◌, List, [], ◌∷◌,
  map, All, pos_part, ok, count_if, if◌then◌else◌, arith, DistinctKeys,
}
use pgstorm.Config.{Config, Env}
use pgstorm.Config.Valid.{IsValid}
use pgstorm.Workload.Float.{Float64}
use pgstorm.Workload.Weights.{WeightedOp, op_names, resolve_weights}
use pgstorm.Workload.Profile.{oltp_ops}
use pgstorm.Workload.Stats.Window.{StatsMap, new_worker_stats}
use pgstorm.Workload.Stats.Collector.{finalize}
use pgstorm.Workload.Stats.Readings.{reading_count, reading_errors}
use pgstorm.Workload.Stats.Conserve.{has}
use pgstorm.Workload.Stats.Distinct.{finalize-DistinctKeys}
use pgstorm.Workload.Stats.Entries.{count_if-names, measure-stats_at, finalize-has}
use pgstorm.Workload.RunResult.{OpResult, RunMeta}
use pgstorm.Workload.RunResult.Reports.{Says, build_run_result-Reports}
use pgstorm.Workload.RunResult.Timeseries.{final_result}
use pgstorm.Workload.Profile.Init.{Affordable}
use pgstorm.Workload.Templates.{Encoding}
use pgstorm.Workload.Templates.Field.{Laws}
use pgstorm.Workload.Ops.{Driver}
use pgstorm.Workload.Worker.Oltp.{oltp}
use pgstorm.Workload.Worker.Account.{dones, failures}
use pgstorm.Workload.Fleet.{Fleet, FleetEvent, Surroundings, run_load}
use pgstorm.Workload.Fleet.Sound.{IsKnown, Sound}
use pgstorm.Workload.Fleet.Load.{Accounts, Sound-Accounts, run_load-Sound}

module _ (F : Float64) where
  -- An operation that occurs in a list at most as often as it is known is known.
  All-op :
      (h : String → Bool) (os : List (OpResult F))
      → ((k : String)
          → count_if (λ j. string_eq.beq j k) (map (λ o. o.op) os) ≤ (if h k then 1 else 0))
      → All (λ o. h o.op ≡ true) os
  All-op h [] few = tt
  All-op h (o ∷ os) few = (
    ground (arith, string_eq.beq_iff o.op o.op, few o.op),
    All-op h os (λ k. ground (arith, few k)),
  )

module _ (F : Float64) {D : Driver} where
  -- An entry of the document has the operations and the errors of the metrics.
  abbrev pub Tells : Fleet F D → OpResult F → Type 0
  Tells f o =
      (o.count % word
        ≡ (dones F (oltp D) o.op f.metrics + failures F (oltp D) o.op f.metrics) % word)
      × (o.errors % word ≡ failures F (oltp D) o.op f.metrics % word)

  Says-Tells :
      (f : Fleet F D) (totals : StatsMap) (o : OpResult F)
      → DistinctKeys totals
      → Accounts F o.op f totals
      → Says F totals o
      → Tells f o
  unfolding reading_count reading_errors
  Says-Tells f totals o d a s = (
    ap (λ t. t % word) (s.0 ∙ sym (measure-stats_at reading_count o.op totals d)) ∙ a.counted,
    ap (λ t. t % word) (s.1 ∙ sym (measure-stats_at reading_errors o.op totals d)) ∙ a.erred,
  )

  All-Tells :
      (ops : List WeightedOp) (f : Fleet F D) (totals : StatsMap) (os : List (OpResult F))
      → DistinctKeys totals
      → ((k : String) → IsKnown ops k → Accounts F k f totals)
      → All (λ o. IsKnown ops o.op) os
      → All (Says F totals) os
      → All (λ o. IsKnown ops o.op × Tells f o) os
  All-Tells ops f totals [] d a k s = tt
  All-Tells ops f totals (o ∷ os) d a k s =
      ((k.0, Says-Tells f totals o d (a o.op k.0) s.0), All-Tells ops f totals os d a k.1 s.1)

  -- An operation of the mix has one entry, and each entry tells what the metrics do.
  Sound-Tells :
      (ops : List WeightedOp) (start n now ended : ℕ) (cfg : Config) (meta : RunMeta F)
      (f : Fleet F D)
      → Sound F ops start n f
      → All
          (λ o. IsKnown ops o.op × Tells f o)
          (final_result F f.collector now ended cfg ops meta).operations
        × ((k : String)
            → IsKnown ops k
            → count_if
                (λ j. string_eq.beq j k)
                (map (λ o. o.op) (final_result F f.collector now ended cfg ops meta).operations)
              ≡ 1)
  unfolding final_result
  Sound-Tells ops start n now ended cfg meta f s =
      let totals = (finalize F now f.collector).0.0 in
      let meta' : RunMeta F = record meta { timeseries = (finalize F now f.collector).0.1 } in
      let d : DistinctKeys totals =
        finalize-DistinctKeys F (op_names ops) start n now s.events s.ran in
      let r = build_run_result-Reports F totals f.collector.series.start ended cfg ops meta' d in
      let os = (final_result F f.collector now ended cfg ops meta).operations in
      let once : (k : String)
          → count_if (λ j. string_eq.beq j k) (map (λ o. o.op) os)
            ≡ (if has k (new_worker_stats (op_names ops)) then 1 else 0) =
        λ k.
          r.complete (λ j. string_eq.beq j k)
          ∙ count_if-names k totals d
          ∙ ap (λ b. if b then 1 else 0)
              (finalize-has F k (op_names ops) start n now s.events s.ran) in
      (
        All-Tells ops f totals os d (Sound-Accounts F ops start n now f s)
            (All-op F (λ k. has k (new_worker_stats (op_names ops))) os
              (λ k. omega (arith, once k)))
            r.each,
        λ k known. once k ∙ ap (λ b. if b then 1 else 0) known,
      )

  -- With encoders and a `make` that keep their laws, valid settings, sizes that `make` gives and an
  -- accepted mix, whatever the workers
  -- draw and the databases answer: every interleaving of the workers runs on without a panic; and
  -- the document that `main` then builds of the run has one entry for each operation of the mix and
  -- no other, and each entry has as many operations and errors as the metrics have published of its
  -- operation (modulo 2^64).
  pub run_load-Tells :
      (E : Encoding) (ids : ℕ → ℕ) (env : Env) (cfg : Config) (ops : List WeightedOp)
      (sur : Surroundings F D) (start now ended : ℕ) (meta : RunMeta F) (es : List (FleetEvent F D))
      → Laws E
      → IsValid cfg
      → Affordable E cfg
      → resolve_weights env oltp_ops ≡ ok ops
      → (f : Fleet F D) × (run_load F D E ids cfg ops sur start es ≡ some f)
        × All
            (λ o. IsKnown ops o.op × Tells f o)
            (final_result F f.collector now ended cfg ops meta).operations
        × ((k : String)
            → IsKnown ops k
            → count_if
                (λ j. string_eq.beq j k)
                (map (λ o. o.op) (final_result F f.collector now ended cfg ops meta).operations)
              ≡ 1)
  run_load-Tells E ids env cfg ops sur start now ended meta es laws valid afford mix =
      let (f, done, s) = run_load-Sound F E ids env cfg ops sur start es laws valid afford mix in
      let (tells, once) = Sound-Tells ops start (pos_part cfg.workers) now ended cfg meta f s in
      (f, done, tells, once)

-- ===== src/Metrics/PgStats/Safe.antt =====
-- The counters of the server's statistics never go down: `Add` of the Prometheus client panics on a
-- negative amount.
use pgstorm.Prelude.{
  ℤ, false, string_eq, ◌≡◌, subst, sym, Option, none, some, List, [], ◌∷◌, All, Bool-cases, inl,
  inr, Result,
}
use pgstorm.Workload.Float.{Float64}
use pgstorm.Metrics.PgStats.{
  Counter, checkpoint_write_seconds, checkpoint_sync_seconds, Tick, major_or_16, run_pg_stats_loop,
}
use pgstorm.Metrics.PgStats.Deltas.{increase, in_unit, in_unit, steps, adds}
use pgstorm.Metrics.PgStats.Reads.{all_reads, adds-run_pg_stats_loop}

-- What is used of Go's `float64`: it holds of IEEE 754, infinities and NaN included, where a
-- comparison with NaN is false.
pub record Order (F : Float64) : Type 0 where
  pub zero_not_lt : F.lt (F.ratio 0 1) (F.ratio 0 1) ≡ false
  pub sub_not_lt : (a b : F.Float) → F.lt a b ≡ false → F.lt (F.sub a b) (F.ratio 0 1) ≡ false
  pub div_not_lt :
      (a : F.Float)
      → F.lt a (F.ratio 0 1) ≡ false
      → F.lt (F.div a (F.ratio 1000 1)) (F.ratio 0 1) ≡ false

module _ (F : Float64) (o : Order F) where
  open F use {Float, lt, ratio}

  -- `Add` does not panic.
  abbrev pub Accepted : Float → Type 0
  Accepted v = lt v (ratio 0 1) ≡ false

  increase-Accepted : (prev : Option Float) (v : Float) → Accepted (increase F prev v)
  increase-Accepted none v = o.zero_not_lt
  increase-Accepted (some p) v = elim (Bool-cases (lt v p)) [
    | inl e ↦ rw e (o.zero_not_lt)
    | inr e ↦ rw e (o.sub_not_lt v p e)
  ]

  in_unit-Accepted : (c : Counter) (v : Float) → Accepted v → Accepted (in_unit F c v)
  in_unit-Accepted checkpoint_write_seconds v h = o.div_not_lt v h
  in_unit-Accepted checkpoint_sync_seconds v h = o.div_not_lt v h
  in_unit-Accepted c v h = h

  steps-Accepted :
      (c : Counter) (prev : Option Float) (vs : List Float) → All Accepted (steps F c prev vs)
  steps-Accepted c prev [] = tt
  steps-Accepted c prev (v ∷ vs) =
      (in_unit-Accepted c _ (increase-Accepted prev v), steps-Accepted c (some v) vs)

  -- With these laws of `float64`, no `Add` of the loop panics: whatever the server answers, none of
  -- the amounts that a counter is told to add is below 0.
  pub run_pg_stats_loop-Accepted :
      {E : Type 0} (c : Counter) (detected : Result E ℤ) (ts : List (Tick F E))
      → All Accepted (adds F c (run_pg_stats_loop F detected ts []))
  run_pg_stats_loop-Accepted c detected ts =
      subst (All Accepted) (sym (adds-run_pg_stats_loop F c detected ts))
        (steps-Accepted c none (all_reads F c (major_or_16 F detected) ts))

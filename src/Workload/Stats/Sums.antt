-- ===== src/Workload/Stats/Sums.antt =====
-- The series of intervals: recording a window adds its operations to the series, whether it gets an
-- entry of its own or is folded into the one before.
use pgstorm.Prelude.{
  ℕ, ◌+◌, ◌%◌, Bool, true, false, String, not, ◌&&◌, ◌≡◌, refl, List, [], ◌∷◌, ◌++◌, map, word,
  sum64, add64, sum64-append, ◌==◌, and_right, sub_ℕ, Bool-cases, inl, inr, arith,
}
use mathlib.Core.List.{map-append}
use pgstorm.Workload.Float.{Float64, seconds}
use pgstorm.Workload.Stats.Window.{StatsMap}
use pgstorm.Workload.Stats.Series.{
  IntervalStats, Series, record_interval, change_last, fold_sliver, window_entry, is_empty,
  min_interval_seconds, counts, error_counts,
}

module _ (F : Float64) where
  pub record_interval-ops :
      (now : ℕ) (merged : StatsMap) (c : Series F) → (record_interval F now merged c).ops ≡ c.ops
  unfolding record_interval
  record_interval-ops now merged c = ground arith

  -- The operations of all intervals.
  abbrev pub series_ops : List (IntervalStats F) → ℕ
  series_ops is = sum64 (map (λ i. i.ops) is)

  abbrev pub series_errors : List (IntervalStats F) → ℕ
  series_errors is = sum64 (map (λ i. i.errors) is)

  abbrev nonempty : List (IntervalStats F) → Bool
  nonempty [] = false
  nonempty (i ∷ is) = true

  change_last-series_ops :
      (f : IntervalStats F → IntervalStats F) (n : ℕ) (is : List (IntervalStats F))
      → ((i : IntervalStats F) → (f i).ops ≡ add64 i.ops n)
      → nonempty is ≡ true
      → series_ops (change_last F f is) % word ≡ (series_ops is + n) % word
  unfolding change_last
  change_last-series_ops f n [] law h = cc
  change_last-series_ops f n (i ∷ []) law h = omega (arith, law i)
  change_last-series_ops f n (i ∷ j ∷ is) law h =
      omega (arith, change_last-series_ops f n (j ∷ is) law refl)

  fold_sliver-ops :
      (ops : List String) (end_secs : F.Float) (n errs : ℕ) (merged : StatsMap)
      (i : IntervalStats F)
      → (fold_sliver F ops end_secs n errs merged i).ops ≡ add64 i.ops n
  unfolding fold_sliver
  fold_sliver-ops ops end_secs n errs merged i = refl

  window_entry-ops :
      (ops : List String) (start_secs end_secs : F.Float) (n errs : ℕ) (merged : StatsMap)
      → (window_entry F ops start_secs end_secs n errs merged).ops ≡ n
  unfolding window_entry
  window_entry-ops ops start_secs end_secs n errs merged = refl

  -- What recording a window does to the series, in its three cases.
  data Recorded (merged : StatsMap) (before after : List (IntervalStats F)) : Type 0 where
    idle : sum64 (counts merged) ≡ 0 → after ≡ before → Recorded merged before after
    folded :
        (f : IntervalStats F → IntervalStats F)
        → ((i : IntervalStats F) → (f i).ops ≡ add64 i.ops (sum64 (counts merged)))
        → nonempty before ≡ true
        → after ≡ change_last F f before
        → Recorded merged before after
    appended :
        (i : IntervalStats F)
        → i.ops ≡ sum64 (counts merged)
        → after ≡ before ++ (i ∷ [])
        → Recorded merged before after

  not_empty : (is : List (IntervalStats F)) → not (is_empty F is) ≡ true → nonempty is ≡ true
  not_empty [] h = cc
  not_empty (i ∷ is) h = refl

  record_interval-Recorded :
      (now : ℕ) (merged : StatsMap) (c : Series F)
      → Recorded merged c.intervals (record_interval F now merged c).intervals
  unfolding record_interval
  record_interval-Recorded now merged c =
      let n = sum64 (counts merged) in
      let errs = sum64 (error_counts merged) in
      let start_secs = seconds F (sub_ℕ c.last_boundary c.start) in
      let end_secs = seconds F (sub_ℕ now c.start) in
      let sliver = F.lt (F.sub end_secs start_secs) (min_interval_seconds F) in
      elim (Bool-cases (n == 0)) [
        | inl e ↦ idle (ground arith) (rw e)
        | inr e ↦ elim (Bool-cases (sliver && not (is_empty F c.intervals))) [
          | inl t ↦
              folded (fold_sliver F c.ops end_secs n errs merged)
                (fold_sliver-ops c.ops end_secs n errs merged)
                (not_empty c.intervals (and_right sliver _ t)) (rw (e, t))
          | inr t ↦
              appended (window_entry F c.ops start_secs end_secs n errs merged)
                (window_entry-ops c.ops start_secs end_secs n errs merged) (rw (e, t))
        ]
      ]

  -- Recording a window adds the operations of the window to those of the series (modulo 2^64).
  pub record_interval-series_ops :
      (now : ℕ) (merged : StatsMap) (c : Series F)
      → series_ops (record_interval F now merged c).intervals % word
        ≡ (series_ops c.intervals + sum64 (counts merged)) % word
  record_interval-series_ops now merged c =
      added c.intervals _ (record_interval-Recorded now merged c)
    where
      added :
          (before after : List (IntervalStats F))
          → Recorded merged before after
          → series_ops after % word ≡ (series_ops before + sum64 (counts merged)) % word
      added before after (idle e s) = rw s (omega arith)
      added before after (folded f law h s) = rw s (change_last-series_ops f _ before law h)
      added before after (appended i e s) =
          rw (s, map-append _ before (i ∷ []))
            (omega (arith, sum64-append (map (λ i. i.ops) before) (i.ops ∷ [])))

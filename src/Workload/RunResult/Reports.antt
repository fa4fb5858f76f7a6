-- ===== src/Workload/RunResult/Reports.antt =====
-- What a result says of the final statistics.
use pgstorm.Prelude.{
  ℕ, ◌+◌, ◌%◌, Bool, true, false, String, string_eq, Option, none, some, ◌≡◌, refl, sym, ap, subst,
  ◌∙◌, List, [], ◌∷◌, map, All, word, sum64, add64, is_positive, sub_ℕ, DistinctKeys, map-lookup,
  sort_by, sort_strings, string_le, string_le_total, IsSorted, sort_by-IsSorted, count_if,
  count_if-sort_by, sum64-map-sort_by, if◌then◌else◌, arith,
}
use pgstorm.Config.{Config}
use pgstorm.Workload.Float.{Float64, seconds}
use pgstorm.Workload.Weights.{WeightedOp}
use pgstorm.Workload.Stats.Window.{OpStats, samples, StatsMap}
use pgstorm.Workload.Stats.Series.{counts, error_counts}
use pgstorm.Workload.RunResult.{
  stats_at, value_or_none, names, OpResult, RunMeta, RunResult, op_result, build_operations,
  build_run_result,
}

-- A value of every operation, read by name, in the order of the map.
pub map-stats_at :
    (f : OpStats → ℕ) (m : StatsMap)
    → DistinctKeys m
    → map (λ op. f (stats_at m op)) (names m) ≡ map (λ e. f e.1) m
unfolding stats_at
map-stats_at f m = map-lookup (λ op o. f (value_or_none o)) m

module _ (F : Float64) where
  open F use {Float}

  build_operations-map :
      (duration : Float) (totals : StatsMap) (ops : List String) (a b : ℕ)
      → (build_operations F duration totals ops a b).1
        ≡ map (λ op. op_result F duration op (stats_at totals op)) ops
  unfolding build_operations
  build_operations-map duration totals [] a b = refl
  build_operations-map duration totals (op ∷ ops) a b =
      ap (λ rest. op_result F duration op (stats_at totals op) ∷ rest)
        (build_operations-map duration totals ops _ _)

  build_operations-sums :
      (duration : Float) (totals : StatsMap) (ops : List String) (a b : ℕ)
      → ((build_operations F duration totals ops a b).0.0 % word
          ≡ (a + sum64 (map (λ op. (stats_at totals op).count) ops)) % word)
        × ((build_operations F duration totals ops a b).0.1 % word
            ≡ (b + sum64 (map (λ op. (stats_at totals op).errors) ops)) % word)
  unfolding build_operations
  build_operations-sums duration totals [] a b = (omega arith, omega arith)
  build_operations-sums duration totals (op ∷ ops) a b =
      let ih =
        build_operations-sums duration totals ops (add64 a (stats_at totals op).count)
          (add64 b (stats_at totals op).errors) in
      (omega (arith, ih.0), omega (arith, ih.1))

  abbrev pub is_present : {A : Type 0} → Option A → Bool
  is_present none = false
  is_present (some x) = true

  -- What an operation's entry says of its statistics.
  abbrev pub Says : StatsMap → OpResult F → Type 0
  Says totals o =
      (o.count ≡ (stats_at totals o.op).count)
      × (o.errors ≡ (stats_at totals o.op).errors)
      × (is_present o.latency ≡ is_positive (samples (stats_at totals o.op)))

  -- A result that reports these totals: its operations are those of the totals, each as often as
  -- there, in the order of their names; each has the count and the errors of its statistics, and a
  -- latency exactly if these hold samples; and the run's counts are the sums (modulo 2^64).
  pub record Reports (totals : StatsMap) (r : RunResult F) : Type 0 where
    pub ordered : IsSorted string_le (map (λ o. o.op) r.operations)
    pub complete :
        (p : String → Bool) → count_if p (map (λ o. o.op) r.operations) ≡ count_if p (names totals)
    pub each : All (Says totals) r.operations
    pub all_ops : r.totals.ops % word ≡ sum64 (counts totals) % word
    pub all_errors : r.totals.errors % word ≡ sum64 (error_counts totals) % word

  map-op :
      (duration : Float) (totals : StatsMap) (ops : List String)
      → map (λ o. o.op) (map (λ op. op_result F duration op (stats_at totals op)) ops) ≡ ops
  unfolding op_result
  map-op duration totals [] = refl
  map-op duration totals (op ∷ ops) = ap (λ rest. op ∷ rest) (map-op duration totals ops)

  present_if : {A : Type 0} (x : A) (b : Bool) → is_present (if b then some x else none) ≡ b
  present_if x true = refl
  present_if x false = refl

  each-op_result :
      (duration : Float) (totals : StatsMap) (ops : List String)
      → All (Says totals) (map (λ op. op_result F duration op (stats_at totals op)) ops)
  unfolding op_result
  each-op_result duration totals [] = tt
  each-op_result duration totals (op ∷ ops) = (
    (refl, refl, present_if _ (is_positive (samples (stats_at totals op)))),
    each-op_result duration totals ops,
  )

  -- The result of totals with one entry for each name lists the operations of the totals, each as
  -- often as there, in the order of their names; each entry has the count and the errors of its
  -- statistics, and a latency exactly if these hold samples; and the run's counts are the sums of
  -- the totals' (modulo 2^64).
  pub build_run_result-Reports :
      (totals : StatsMap) (started ended : ℕ) (cfg : Config) (ops : List WeightedOp)
      (meta : RunMeta F)
      → DistinctKeys totals
      → Reports totals (build_run_result F totals started ended cfg ops meta)
  unfolding build_run_result sort_strings
  build_run_result-Reports totals started ended cfg ops meta d = record {
    ordered =
        subst (IsSorted string_le) (sym listed)
          (sort_by-IsSorted string_le string_le_total (names totals));
    complete = (λ p. ap (count_if p) listed ∙ count_if-sort_by string_le p (names totals));
    each = subst (All (Says totals)) (sym mapped) (each-op_result duration totals sorted);
    all_ops = omega (
      arith,
      sums.0,
      sum64-map-sort_by string_le (λ op. (stats_at totals op).count) (names totals),
      ap sum64 (map-stats_at (λ s. s.count) totals d),
    );
    all_errors = omega (
      arith,
      sums.1,
      sum64-map-sort_by string_le (λ op. (stats_at totals op).errors) (names totals),
      ap sum64 (map-stats_at (λ s. s.errors) totals d),
    );
  }
    where
      duration : Float
      duration = seconds F (sub_ℕ ended started)

      sorted : List String
      sorted = sort_by string_le (names totals)

      mapped :
          (build_operations F duration totals sorted 0 0).1
          ≡ map (λ op. op_result F duration op (stats_at totals op)) sorted
      mapped = build_operations-map duration totals sorted 0 0

      listed : map (λ o. o.op) (build_operations F duration totals sorted 0 0).1 ≡ sorted
      listed = ap (map (λ o. o.op)) mapped ∙ map-op duration totals sorted

      sums :
          ((build_operations F duration totals sorted 0 0).0.0 % word
            ≡ (0 + sum64 (map (λ op. (stats_at totals op).count) sorted)) % word)
          × ((build_operations F duration totals sorted 0 0).0.1 % word
              ≡ (0 + sum64 (map (λ op. (stats_at totals op).errors) sorted)) % word)
      sums = build_operations-sums duration totals sorted 0 0

-- ===== src/Workload/Stats/Quantile.antt =====
-- workload/stats.go, `sortedKeys`, `quantileFrom` and `latencyStats`.
use pgstorm.Prelude.{
  ℕ, ◌*◌, ℤ, pos, bits, ltb_ℤ, List, [], ◌∷◌, map, add64, sum64, lt_signed, lookup, nat_eq, leb,
  sort_by, ◌==◌, if◌then◌else◌,
}
use pgstorm.Workload.Float.{Float64, signed}
use pgstorm.Workload.Stats.Window.{OpStats, value_or_zero}

-- `slices.Sort`
unfoldable pub sort : List ℕ → List ℕ
unfolding sort_by
sort = sort_by leb

-- `sortedKeys`
unfoldable pub sorted_keys : OpStats → List ℕ × ℕ
unfolding sort
sorted_keys s = (sort (map (λ e. e.0) s.latencies), sum64 (map (λ e. e.1) s.latencies))

-- `latencies[us]`
unfoldable pub observations : List (ℕ × ℕ) → ℕ → ℕ
unfolding lookup
observations m us = value_or_zero (lookup us m)

-- The walk over every key but the last. It is never run on no keys: Go's `keys[:len(keys)-1]` would
-- panic there, and keys are missing only when the total is 0.
unfoldable pub walk : (ℕ → ℕ) → ℕ → ℕ → List ℕ → ℕ
walk w rank cum [] = 0
walk w rank cum (k ∷ []) = k
walk w rank cum (k ∷ l ∷ ks) =
    let next = add64 cum (w k) in
    let rest = walk w rank next (l ∷ ks) in if lt_signed next rank then rest else k

-- The rank kept between 1 and the total.
unfoldable pub clamp_rank : ℤ → ℕ → ℕ
clamp_rank rank total =
    if ltb_ℤ rank (pos 1) then 1 else if ltb_ℤ (signed total) rank then total else bits rank

pub record LatencyStats (Float : Type 0) : Type 0 where
  pub min_ms : Float
  pub mean_ms : Float
  pub p50_ms : Float
  pub p95_ms : Float
  pub p99_ms : Float
  pub p999_ms : Float
  pub max_ms : Float

abbrev first_key : List ℕ → ℕ
first_key [] = 0
first_key (k ∷ ks) = k

abbrev last_key : List ℕ → ℕ
last_key [] = 0
last_key (k ∷ []) = k
last_key (k ∷ l ∷ ks) = last_key (l ∷ ks)

-- `us * latencies[us]`, summed.
weighted_sum : (ℕ → ℕ) → List ℕ → ℕ
weighted_sum w [] = 0
weighted_sum w (k ∷ ks) = add64 (k * w k) (weighted_sum w ks)

module _ (F : Float64) where
  open F use {Float, of_int, to_int, ratio, mul, div, ceil}

  -- `float64(us) / 1000`
  unfoldable pub ms : ℕ → Float
  ms us = div (of_int (signed us)) (ratio 1000 1)

  unfoldable pub rank_of : Float → ℕ → ℕ
  unfolding clamp_rank
  rank_of q total = clamp_rank (to_int (ceil (mul q (of_int (signed total))))) total

  -- `quantileFrom`
  unfoldable pub quantile_from : List (ℕ × ℕ) → List ℕ → ℕ → Float → Float
  unfolding walk ms observations rank_of
  quantile_from latencies keys total q =
      if total == 0 then ratio 0 1 else ms (walk (observations latencies) (rank_of q total) 0 keys)

  -- `percentile`
  unfoldable pub percentile : OpStats → Float → Float
  unfolding sorted_keys quantile_from
  percentile s q = let (keys, total) = sorted_keys s in quantile_from s.latencies keys total q

  -- `latencyStats`
  unfoldable pub latency_stats : OpStats → LatencyStats Float
  unfolding ms weighted_sum sorted_keys quantile_from
  latency_stats s =
      let (keys, total) = sorted_keys s in
      let at = quantile_from s.latencies keys total in
      let nothing = ratio 0 1 in
      if total == 0
      then record {
        min_ms = nothing;
        mean_ms = nothing;
        p50_ms = nothing;
        p95_ms = nothing;
        p99_ms = nothing;
        p999_ms = nothing;
        max_ms = nothing;
      }
      else record {
        min_ms = ms (first_key keys);
        mean_ms =
            div
              (div (of_int (signed (weighted_sum (observations s.latencies) keys)))
                (of_int (signed total)))
              (ratio 1000 1);
        p50_ms = at (ratio 50 100);
        p95_ms = at (ratio 95 100);
        p99_ms = at (ratio 99 100);
        p999_ms = at (ratio 999 1000);
        max_ms = ms (last_key keys);
      }

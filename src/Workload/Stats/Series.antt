-- ===== src/Workload/Stats/Series.antt =====
-- workload/stats.go, `recordIntervalLocked`, and the records of workload/result.go that it fills:
-- one entry for each drained window.
--
-- The order in which Go walks the merged map is left open by the language; the sums here go through
-- the map's entries in one order, and no sum depends on it.
use pgstorm.Prelude.{
  ℕ, sub_ℕ, Bool, true, false, ◌&&◌, not, String, Option, none, some, List, [], ◌∷◌, ◌++◌, map,
  add64, sum64, is_positive, lookup, insert, string_eq, ◌==◌, if◌then◌else◌,
}
use pgstorm.Workload.Float.{Float64, seconds, signed}
use pgstorm.Workload.Stats.Window.{OpStats, StatsMap}
use pgstorm.Workload.Stats.Quantile.{sorted_keys, quantile_from}

abbrev pub counts : StatsMap → List ℕ
counts = map λ e. e.1.count

abbrev pub error_counts : StatsMap → List ℕ
error_counts = map λ e. e.1.errors

module _ (F : Float64) where
  open F use {Float, of_int, ratio, sub, div, lt, le}

  pub record IntervalOp : Type 0 where
    pub op : String
    pub count : ℕ
    pub errors : ℕ
    pub ops_per_sec : Float
    pub p50_ms : Float
    pub p95_ms : Float
    pub p99_ms : Float

  pub record IntervalStats : Type 0 where
    pub start_seconds : Float
    pub end_seconds : Float
    pub ops : ℕ
    pub errors : ℕ
    pub ops_per_sec : Float
    pub operations : List IntervalOp

  -- The part of a collector that the series needs.
  pub record Series : Type 0 where
    pub ops : List String
    pub start : ℕ
    pub last_boundary : ℕ
    pub intervals : List IntervalStats

  -- `minIntervalSeconds`
  abbrev pub min_interval_seconds : Float
  min_interval_seconds = ratio 1 1

  -- The `rate` of a window of its own.
  unfoldable pub rate : ℕ → Float → Float
  rate n span = if le span (ratio 0 1) then ratio 0 1 else div (of_int (signed n)) span

  -- The rate of a merged interval: kept as it was unless the span is positive.
  unfoldable pub rate_or : Float → ℕ → Float → Float
  rate_or otherwise n span = if lt (ratio 0 1) span then div (of_int (signed n)) span else otherwise

  percentile_of : OpStats → Float → Float
  percentile_of s q = let (keys, total) = sorted_keys s in quantile_from F s.latencies keys total q

  -- An entry with the percentiles of `s`.
  unfoldable pub entry : String → ℕ → ℕ → Float → OpStats → IntervalOp
  unfolding percentile_of
  entry op count errors per_sec s = record {
    op = op;
    count = count;
    errors = errors;
    ops_per_sec = per_sec;
    p50_ms = percentile_of s (ratio 50 100);
    p95_ms = percentile_of s (ratio 95 100);
    p99_ms = percentile_of s (ratio 99 100);
  }

  keyed : IntervalOp → String × IntervalOp
  keyed o = (o.op, o)

  -- `existing`: the predecessor's entries by name, a later one over an earlier one.
  unfoldable pub by_name : List (String × IntervalOp) → List IntervalOp → List (String × IntervalOp)
  by_name acc [] = acc
  by_name acc (o ∷ os) = by_name (insert o.op o acc) os

  -- One round of the rebuilding loop: the operation's entry, unless it has none in either window.
  unfoldable pub rebuilt_op :
      Float → String → Option IntervalOp → Option OpStats → Option IntervalOp
  rebuilt_op prev_span op none none = none
  rebuilt_op prev_span op (some o) none =
      some (record o { ops_per_sec = rate_or o.ops_per_sec o.count prev_span })
  rebuilt_op prev_span op none (some s) =
      if is_positive s.count
      then some (entry op s.count s.errors (rate_or (ratio 0 1) s.count prev_span) s)
      else none
  rebuilt_op prev_span op (some o) (some s) =
      let count = if is_positive s.count then add64 o.count s.count else o.count in
      some (record o {
        count = count;
        errors = if is_positive s.count then add64 o.errors s.errors else o.errors;
        ops_per_sec = rate_or o.ops_per_sec count prev_span;
      })

  append_some : Option IntervalOp → List IntervalOp → List IntervalOp
  append_some none os = os
  append_some (some o) os = o ∷ os

  unfoldable pub rebuild :
      Float → List (String × IntervalOp) → StatsMap → List String → List IntervalOp
  unfolding append_some
  rebuild prev_span existing merged [] = []
  rebuild prev_span existing merged (op ∷ ops) =
      append_some (rebuilt_op prev_span op (lookup op existing) (lookup op merged))
        (rebuild prev_span existing merged ops)

  -- The branch that folds a sliver into the preceding interval.
  unfoldable pub fold_sliver :
      List String → Float → ℕ → ℕ → StatsMap → IntervalStats → IntervalStats
  unfolding rate_or by_name rebuild rebuilt_op entry
  fold_sliver ops end_secs n errs merged prev =
      let prev_span = sub end_secs prev.start_seconds in
      let total = add64 prev.ops n in
      record prev {
        ops = total;
        errors = add64 prev.errors errs;
        end_seconds = end_secs;
        operations = rebuild prev_span (by_name [] prev.operations) merged ops;
        ops_per_sec = rate_or prev.ops_per_sec total prev_span;
      }

  -- The entry of a window of its own, for an operation with any traffic.
  unfoldable pub window_op : Float → String → Option OpStats → Option IntervalOp
  window_op span op none = none
  window_op span op (some s) =
      if s.count == 0 then none else some (entry op s.count s.errors (rate s.count span) s)

  unfoldable pub window_ops : Float → StatsMap → List String → List IntervalOp
  unfolding append_some
  window_ops span merged [] = []
  window_ops span merged (op ∷ ops) =
      append_some (window_op span op (lookup op merged)) (window_ops span merged ops)

  -- The intervals with the last one changed.
  unfoldable pub change_last :
      (IntervalStats → IntervalStats) → List IntervalStats → List IntervalStats
  change_last f [] = []
  change_last f (i ∷ []) = f i ∷ []
  change_last f (i ∷ j ∷ is) = i ∷ change_last f (j ∷ is)

  abbrev pub is_empty : List IntervalStats → Bool
  is_empty [] = true
  is_empty (i ∷ is) = false

  -- The entry that a window gets of its own.
  unfoldable pub window_entry : List String → Float → Float → ℕ → ℕ → StatsMap → IntervalStats
  unfolding window_ops window_op entry rate
  window_entry ops start_secs end_secs n errs merged =
      let span = sub end_secs start_secs in
      record {
        start_seconds = start_secs;
        end_seconds = end_secs;
        ops = n;
        errors = errs;
        ops_per_sec = rate n span;
        operations = window_ops span merged ops;
      }

  -- `recordIntervalLocked`
  unfoldable pub record_interval : ℕ → StatsMap → Series → Series
  unfolding fold_sliver window_entry change_last
  record_interval now merged c =
      let n = sum64 (counts merged) in
      let errs = sum64 (error_counts merged) in
      let start_secs = seconds F (sub_ℕ c.last_boundary c.start) in
      let end_secs = seconds F (sub_ℕ now c.start) in
      let span = sub end_secs start_secs in
      if n == 0
      then c
      else if lt span min_interval_seconds && not (is_empty c.intervals)
      then record c {
        intervals = change_last (fold_sliver c.ops end_secs n errs merged) c.intervals;
        last_boundary = now;
      }
      else record c {
        intervals = c.intervals ++ (window_entry c.ops start_secs end_secs n errs merged ∷ []);
        last_boundary = now;
      }

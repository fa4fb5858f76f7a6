-- ===== src/Workload/Console.antt =====
-- workload/stats.go, `print` and what it prints with: the summary of a window on the console.
--
-- The summary is the values of its lines: rulers, padding, the clock and the printing of floating
-- point are left out, but for the grouping of digits by `commaf`. Texts are lists of code points;
-- `none` is a panic.
pub mod Grouping
pub mod Totals
mod Tests
use pgstorm.Prelude.{
  ℕ, zero, suc, ◌+◌, ◌-◌, ◌/◌, ◌%◌, ℤ, pos, negsuc, Bool, true, false, String, Option, none, some,
  List, [], ◌∷◌, ◌++◌, length, map, sum64, sub64, sub_ℕ, ltb, leb, ◌==◌, if◌then◌else◌,
}
use mathlib.Core.Option
use pgstorm.Metrics.PoolCollector.{Stat}
use pgstorm.Workload.Float.{Float64, seconds, signed}
use pgstorm.Workload.Stats.Window.{OpStats, StatsMap, samples}
use pgstorm.Workload.Stats.Quantile.{percentile}
use pgstorm.Workload.Stats.Collector.{StatsCollector, drain}
use pgstorm.Workload.RunResult.{stats_at}

-- The decimal digits of a number, before those of `acc`; each digit takes one of the fuel.
unfoldable pub digits : ℕ → ℕ → List ℕ → List ℕ
digits zero n acc = acc
digits (suc k) n acc =
    let here = (b'0' + n % 10) ∷ acc in
    let rest = digits k (n / 10) here in if ltb n 10 then here else rest

-- `fmt.Sprintf("%d", n)`: an `int64` has at most 19 digits.
unfoldable pub sprint_int : ℤ → List ℕ
unfolding digits
sprint_int (pos n) = digits 20 n []
sprint_int (negsuc n) = b'-' ∷ digits 20 (suc n) []

-- The loop of `commaf`: three characters at a time, after a comma but at the very start. A rest of
-- one or two would be sliced out of bounds.
unfoldable pub groups : Bool → List ℕ → Option (List ℕ)
groups at_start [] = some []
groups at_start (a ∷ []) = none
groups at_start (a ∷ b ∷ []) = none
groups at_start (a ∷ b ∷ c ∷ s) =
    Option.map (λ t. if at_start then a ∷ b ∷ c ∷ t else b',' ∷ a ∷ b ∷ c ∷ t) (groups false s)

abbrev pub first_part : ℕ → List ℕ → List ℕ
first_part zero s = []
first_part (suc n) [] = []
first_part (suc n) (c ∷ s) = c ∷ first_part n s

abbrev pub second_part : ℕ → List ℕ → List ℕ
second_part zero s = s
second_part (suc n) [] = []
second_part (suc n) (c ∷ s) = second_part n s

-- `commaf`, on the text of its number.
unfoldable pub commaf_text : List ℕ → Option (List ℕ)
unfolding groups
commaf_text s =
    let rem = length s % 3 in
    if leb (length s) 3
    then some s
    else Option.map (λ t. first_part rem s ++ t) (groups (rem == 0) (second_part rem s))

-- `commaf`
unfoldable pub commaf : ℤ → Option (List ℕ)
unfolding commaf_text sprint_int
commaf n = commaf_text (sprint_int n)

module _ (F : Float64) where
  open F use {Float, of_int, ratio, div}

  -- `latencyCell`; `none` is the dash.
  unfoldable pub latency_cell : OpStats → Float → Option Float
  unfolding samples percentile
  latency_cell s q = if samples s == 0 then none else some (percentile F s q)

  pub record SummaryRow : Type 0 where
    pub op : String
    pub count : ℕ
    pub errors : ℕ
    pub ops_per_sec : Float
    pub p50 : Option Float
    pub p95 : Option Float
    pub p99 : Option Float

  pub record Summary : Type 0 where
    pub total_ops : ℕ
    pub total_cell : Option (List ℕ)
    pub total_errors : ℕ
    pub ops_per_sec : Float
    pub rows : List SummaryRow
    pub pool : Option Stat
    pub workers : ℕ

  -- A row of the table.
  unfoldable pub summary_row : Float → StatsMap → String → SummaryRow
  unfolding latency_cell stats_at
  summary_row window_secs merged op =
      let s = stats_at merged op in
      record {
        op = op;
        count = s.count;
        errors = s.errors;
        ops_per_sec = div (of_int (signed s.count)) window_secs;
        p50 = latency_cell s (ratio 50 100);
        p95 = latency_cell s (ratio 95 100);
        p99 = latency_cell s (ratio 99 100);
      }

  -- `print`, of a window of so many nanoseconds that ends now.
  unfoldable pub print : ℕ → ℤ → Option Stat → StatsCollector F → Summary × StatsCollector F
  unfolding drain summary_row commaf
  print now window pool c =
      let (merged, c') = drain F now c in
      let window_secs = seconds F window in
      let total_ops = sum64 (map (λ e. e.1.count) merged) in
      (
        record {
          total_ops = total_ops;
          total_cell = commaf (signed total_ops);
          total_errors = sum64 (map (λ e. e.1.errors) merged);
          ops_per_sec = div (of_int (signed total_ops)) window_secs;
          rows = map (summary_row window_secs merged) c.series.ops;
          pool = pool;
          workers = length c'.workers;
        },
        c',
      )

  -- `RunSummaryLoop`: a tick, and what the pool says at it, for each before the context is done.
  -- The interval is one that `time.NewTicker` takes; Main.antt says when it panics.
  unfoldable pub run_summary_loop :
      ℤ → List (ℕ × Option Stat) → StatsCollector F → List Summary × StatsCollector F
  unfolding print
  run_summary_loop interval [] c = ([], c)
  run_summary_loop interval ((now, pool) ∷ ticks) c =
      let (summary, c1) = print now interval pool c in
      let (summaries, c2) = run_summary_loop interval ticks c1 in (summary ∷ summaries, c2)

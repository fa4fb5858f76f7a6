-- ===== src/Workload/Stats/Window.antt =====
-- workload/stats.go, `opStats` and `WorkerStats`: one worker's statistics since the last summary.
--
-- Counts are bit patterns of `int64` and wrap at 2^64. A latency map is an association list; the
-- empty list stands for Go's nil map and its empty map, which read alike and which `Record`
-- allocates before it writes. `Record` and `snapshot` hold the worker's mutex throughout, so each
-- is one atomic step.
use pgstorm.Prelude.{
  ℕ, ℤ, pos, negsuc, Bool, String, Option, none, some, List, [], ◌∷◌, map, add64, sum64, lookup,
  insert, adjust, string_eq, nat_eq, if◌then◌else◌,
}
use pgstorm.Workload.Float.{Float64}

pub record OpStats : Type 0 where
  pub count : ℕ
  pub errors : ℕ
  -- microseconds and how often they were observed
  pub latencies : List (ℕ × ℕ)

-- `opStats{}`
abbrev pub no_stats : OpStats
no_stats = record { count = 0; errors = 0; latencies = [] }

abbrev pub StatsMap : Type 0
StatsMap = List (String × OpStats)

-- `samples`
unfoldable pub samples : OpStats → ℕ
samples s = sum64 (map (λ e. e.1) s.latencies)

abbrev pub value_or_zero : Option ℕ → ℕ
value_or_zero none = 0
value_or_zero (some n) = n

-- `m[us] += n`, where a missing key reads as 0.
unfoldable pub add_at : ℕ → ℕ → List (ℕ × ℕ) → List (ℕ × ℕ)
add_at us n m = insert us (add64 (value_or_zero (lookup us m)) n) m

-- A negative latency is pinned to 0.
abbrev pub pinned : ℤ → ℕ
pinned (pos n) = n
pinned (negsuc n) = 0

-- The body of `Record`, on the statistics of the operation; `us` is the latency in microseconds.
unfoldable pub record_us : ℤ → Bool → OpStats → OpStats
record_us us failed s =
    let counted = record s { count = add64 s.count 1 } in
    if failed
    then record counted { errors = add64 s.errors 1 }
    else record counted { latencies = add_at (pinned us) 1 s.latencies }

-- `newWorkerStats`
unfoldable pub new_worker_stats : List String → StatsMap
new_worker_stats [] = []
new_worker_stats (op ∷ ops) = insert op no_stats (new_worker_stats ops)

present : {A : Type 0} → Option OpStats → A → Option A
present none a = none
present (some s) a = some a

module _ (F : Float64) where
  open F use {Float, to_int, mul, ratio}

  -- `Record`. An operation that the worker does not know is a nil pointer, and panics.
  unfoldable pub record_op : String → Float → Bool → StatsMap → Option StatsMap
  unfolding present
  record_op op duration failed ws =
      let us = to_int (mul duration (ratio 1000000 1)) in
      present (lookup op ws) (adjust op (record_us us failed) ws)

-- `snapshot`: the statistics handed over, and what stays with the worker.
unfoldable pub snapshot : StatsMap → StatsMap × StatsMap
snapshot ws = (ws, map (λ e. (e.0, no_stats)) ws)

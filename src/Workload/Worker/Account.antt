-- ===== src/Workload/Worker/Account.antt =====
-- A worker's own statistics and the metrics it publishes count the same operations.
use pgstorm.Prelude.{
  ℕ, suc, ◌+◌, ◌%◌, Bool, true, false, ◌&&◌, not, String, string_eq, ◌≡◌, refl, ap, subst, Option,
  none, some, List, [], ◌∷◌, word, if◌then◌else◌, arith,
}
use pgstorm.Workload.Rng.{Rng, intn}
use pgstorm.Workload.Weights.{WeightedOp, select_op}
use pgstorm.Workload.Float.{Float64}
use pgstorm.Workload.Stats.Window.{StatsMap, record_op, new_worker_stats}
use pgstorm.Workload.Stats.Readings.{reading_count, reading_errors}
use pgstorm.Workload.Stats.Conserve.{measure, measure-new}
use pgstorm.Workload.Stats.Run.{measure-record_op}
use pgstorm.Workload.Worker.{
  Executor, MetricCall, ops_total, op_duration, workers_inc, workers_dec, Worker, Turn, is_error,
  record_op_metrics, record_skip, is_skip, is_shutdown_cancellation, ran, run_op, with_stats,
  classify, rolled, work, go_on, run_worker,
}

-- A predicate of what a computation yields, if it does.
abbrev pub Yields {ℓ κ} : {A : Type ℓ} → (A → Type κ) → Option A → Type κ
Yields P none = Unit
Yields P (some a) = P a

module _ (F : Float64) (X : Executor) where
  open F use {Float}
  open X use {State, Error}

  -- How often the log of an operation `k` counts it as done, as failed, and observes its duration.
  abbrev pub dones : String → List (MetricCall F X) → ℕ
  dones k [] = 0
  dones k (ops_total op failed ∷ log) =
      (if string_eq.beq op k && not failed then 1 else 0) + dones k log
  dones k (_ ∷ log) = dones k log

  abbrev pub failures : String → List (MetricCall F X) → ℕ
  failures k [] = 0
  failures k (ops_total op failed ∷ log) =
      (if string_eq.beq op k && failed then 1 else 0) + failures k log
  failures k (_ ∷ log) = failures k log

  abbrev pub durations : String → List (MetricCall F X) → ℕ
  durations k [] = 0
  durations k (op_duration op d ∷ log) = (if string_eq.beq op k then 1 else 0) + durations k log
  durations k (_ ∷ log) = durations k log

  abbrev pub starts : List (MetricCall F X) → ℕ
  starts [] = 0
  starts (workers_inc ∷ log) = suc (starts log)
  starts (_ ∷ log) = starts log

  abbrev pub stops : List (MetricCall F X) → ℕ
  stops [] = 0
  stops (workers_dec ∷ log) = suc (stops log)
  stops (_ ∷ log) = stops log

  -- The statistics of an operation `k` and its metrics agree, and the gauge of active workers is back where it was.
  pub record Agree (k : String) (w : Worker F X) : Type 0 where
    pub counted :
        measure reading_count k w.stats % word ≡ (dones k w.metrics + failures k w.metrics) % word
    pub erred : measure reading_errors k w.stats % word ≡ failures k w.metrics % word
    pub observed : durations k w.metrics ≡ dones k w.metrics
    pub balanced : starts w.metrics ≡ stops w.metrics

  run_op-Agree :
      (k op : String) (w : Worker F X) → Agree k w → Yields (λ p. Agree k p.1) (run_op F X op w)
  unfolding run_op ran
  run_op-Agree k op w a = after (X.execute op w.executor)
    where
      after :
          (o : Option (Option Error × State))
          → Yields (λ p. Agree k p.1) (ran F X (record w { metrics = workers_inc ∷ w.metrics }) o)
      after none = tt
      after (some (r, x)) = record {
        counted = a.counted;
        erred = a.erred;
        observed = a.observed;
        balanced = omega (arith, a.balanced);
      }

  -- An operation recorded both in the metrics and in the statistics.
  recorded-Agree :
      (k op : String) (d : Float) (r : Option Error) (w : Worker F X) (m : StatsMap)
      → record_op F op d (is_error F X r) w.stats ≡ some m
      → Agree k w
      → Agree k (record w { stats = m; metrics = record_op_metrics F X op d r w.metrics })
  unfolding record_op_metrics reading_count reading_errors
  recorded-Agree k op d none w m e a = record {
    counted = ground (arith, measure-record_op F reading_count k op d false w.stats m e, a.counted);
    erred = ground (arith, measure-record_op F reading_errors k op d false w.stats m e, a.erred);
    observed = ground (arith, a.observed);
    balanced = a.balanced;
  }
  recorded-Agree k op d (some x) w m e a = record {
    counted = ground (arith, measure-record_op F reading_count k op d true w.stats m e, a.counted);
    erred = ground (arith, measure-record_op F reading_errors k op d true w.stats m e, a.erred);
    observed = ground (arith, a.observed);
    balanced = a.balanced;
  }

  with_stats-Agree :
      (k op : String) (d : Float) (r : Option Error) (w : Worker F X) (o : Option StatsMap)
      → record_op F op d (is_error F X r) w.stats ≡ o
      → Agree k w
      → Yields
          (Agree k)
          (with_stats F X (record w { metrics = record_op_metrics F X op d r w.metrics }) o)
  unfolding with_stats
  with_stats-Agree k op d r w none e a = tt
  with_stats-Agree k op d r w (some m) e a = recorded-Agree k op d r w m e a

  choice-Agree :
      (k : String) (b : Bool) (m n : Option (Worker F X))
      → Yields (Agree k) m
      → Yields (Agree k) n
      → Yields (Agree k) (if b then m else n)
  choice-Agree k true m n p q = p
  choice-Agree k false m n p q = q

  classify-Agree :
      (k op : String) (turn : Turn F X) (o : Option (Option Error × Worker F X))
      → Yields (λ p. Agree k p.1) o
      → Yields (Agree k) (classify F X turn op o)
  unfolding classify record_skip
  classify-Agree k op turn none a = tt
  classify-Agree k op turn (some (r, w)) a =
      choice-Agree k (is_skip F X r) _ _
        (record {
          counted = a.counted;
          erred = a.erred;
          observed = a.observed;
          balanced = a.balanced;
        })
        (choice-Agree k (is_shutdown_cancellation F X turn.done_after r) _ _ a (
          with_stats-Agree k op turn.duration r w
            (record_op F op turn.duration (is_error F X r) w.stats) refl a))

  work-Agree :
      (k : String) (ops : List WeightedOp) (turn : Turn F X) (w : Worker F X)
      → Agree k w
      → Yields (Agree k) (work F X ops turn w)
  unfolding work rolled
  work-Agree k ops turn w a = after (intn 100 (X.rng w.executor))
    where
      after : (o : Option (ℕ × Rng)) → Yields (Agree k) (rolled F X ops turn w o)
      after none = tt
      after (some (roll, g)) =
          classify-Agree k (select_op roll ops) turn
            (run_op F X (select_op roll ops) (record w { executor = X.with_rng w.executor g }))
            (run_op-Agree k (select_op roll ops) (record w { executor = X.with_rng w.executor g })
              (record {
                counted = a.counted;
                erred = a.erred;
                observed = a.observed;
                balanced = a.balanced;
              }))

  go_on-Agree :
      (k : String) (thinks : Bool) (turn : Turn F X) (next : Worker F X → Option (Worker F X))
      (o : Option (Worker F X))
      → ((v : Worker F X) → Agree k v → Yields (Agree k) (next v))
      → Yields (Agree k) o
      → Yields (Agree k) (go_on F X thinks turn next o)
  unfolding go_on
  go_on-Agree k thinks turn next none keeps a = tt
  go_on-Agree k thinks turn next (some v) keeps a =
      choice-Agree k (thinks && turn.done_thinking) _ _ a (keeps v a)

  -- Every run keeps the agreement.
  run_worker-Yields :
      (k : String) (ops : List WeightedOp) (thinks : Bool) (turns : List (Turn F X))
      (w : Worker F X)
      → Agree k w
      → Yields (Agree k) (run_worker F X ops thinks turns w)
  unfolding run_worker
  run_worker-Yields k ops thinks [] w a = a
  run_worker-Yields k ops thinks (turn ∷ turns) w a = choice-Agree k turn.done_before _ _ a (
      go_on-Agree k thinks turn (run_worker F X ops thinks turns) (work F X ops turn w)
        (λ v b. run_worker-Yields k ops thinks turns v b) (work-Agree k ops turn w a))

  -- A worker before its first turn, with the operations that its statistics know.
  unfoldable pub fresh : State → List String → Worker F X
  fresh x names = record { executor = x; stats = new_worker_stats names; metrics = [] }

  fresh-Agree : (k : String) (x : State) (names : List String) → Agree k (fresh x names)
  unfolding fresh
  fresh-Agree k x names = record {
    counted = ap (λ n. n % word) (measure-new reading_count k names);
    erred = ap (λ n. n % word) (measure-new reading_errors k names);
    observed = refl;
    balanced = refl;
  }

  -- However a worker's run went that did not panic, for every operation: the count of its
  -- statistics is the number of operations that the metrics count as done or failed, the errors
  -- are those they count as failed (both modulo 2^64), the metrics observe one duration for each
  -- operation done, and the gauge of active workers went down as often as up.
  pub run_worker-Agree :
      (k : String) (ops : List WeightedOp) (thinks : Bool) (turns : List (Turn F X)) (x : State)
      (names : List String) (w : Worker F X)
      → run_worker F X ops thinks turns (fresh x names) ≡ some w
      → Agree k w
  run_worker-Agree k ops thinks turns x names w e =
      subst (Yields (Agree k)) e
        (run_worker-Yields k ops thinks turns (fresh x names) (fresh-Agree k x names))

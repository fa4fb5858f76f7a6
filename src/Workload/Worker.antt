-- ===== src/Workload/Worker.antt =====
-- workload/worker.go: the loop of a worker; and `RecordOp` and `RecordSkip` of metrics/metrics.go.
--
-- The executor is an interface, which Worker/Oltp.antt fills with the operations of Ops. A turn of
-- the loop carries what the clock and the context say during it; a list of turns is a run, and
-- `none` is a panic. The Prometheus client is a log of the calls made of it, the newest first.
pub mod Account
pub mod Oltp
mod Tests
use pgstorm.Prelude.{
  Bool, true, false, ◌&&◌, String, ℕ, Option, none, some, List, [], ◌∷◌, if◌then◌else◌,
}
use pgstorm.Workload.Rng.{Rng, intn}
use pgstorm.Workload.Weights.{WeightedOp, select_op}
use pgstorm.Workload.Float.{Float64}
use pgstorm.Workload.Stats.Window.{StatsMap, record_op}

-- `Executor`, with the errors it returns: `nil` is `none`. The worker draws from the executor's
-- source of numbers too.
pub record Executor : Type 1 where
  pub State : Type 0
  pub Error : Type 0
  pub execute : String → State → Option (Option Error × State)
  pub rng : State → Rng
  pub with_rng : State → Rng → State
  -- `errors.Is(err, errSkipped)`
  pub is_skipped : Error → Bool
  -- `errors.Is` with `context.Canceled` or with `context.DeadlineExceeded`
  pub is_context_error : Error → Bool

module _ (F : Float64) (X : Executor) where
  open F use {Float}
  open X use {State, Error}

  pub data MetricCall : Type 0 where
    ops_total : String → Bool → MetricCall
    op_duration : String → Float → MetricCall
    ops_skipped : String → MetricCall
    workers_inc : MetricCall
    workers_dec : MetricCall

  pub record Worker : Type 0 where
    pub executor : State
    pub stats : StatsMap
    pub metrics : List MetricCall

  -- Whether the context is done when the turn starts, when its operation has returned and while the
  -- worker thinks; and the seconds that the operation took.
  pub record Turn : Type 0 where
    pub done_before : Bool
    pub duration : Float
    pub done_after : Bool
    pub done_thinking : Bool

  abbrev pub is_error : Option Error → Bool
  is_error none = false
  is_error (some x) = true

  -- `RecordOp`; the flag of `ops_total` says whether its status is "error".
  unfoldable pub record_op_metrics :
      String → Float → Option Error → List MetricCall → List MetricCall
  record_op_metrics op duration (some x) log = ops_total op true ∷ log
  record_op_metrics op duration none log = op_duration op duration ∷ (ops_total op false ∷ log)

  -- `RecordSkip`
  unfoldable pub record_skip : String → List MetricCall → List MetricCall
  record_skip op log = ops_skipped op ∷ log

  unfoldable pub is_skip : Option Error → Bool
  is_skip none = false
  is_skip (some x) = X.is_skipped x

  -- `isShutdownCancellation`; `done` is `ctx.Err() != nil`.
  unfoldable pub is_shutdown_cancellation : Bool → Option Error → Bool
  is_shutdown_cancellation done none = false
  is_shutdown_cancellation done (some x) = done && X.is_context_error x

  unfoldable pub ran : Worker → Option (Option Error × State) → Option (Option Error × Worker)
  ran w none = none
  ran w (some (r, x)) = some (r, record w { executor = x; metrics = workers_dec ∷ w.metrics })

  -- `runOp`
  unfoldable pub run_op : String → Worker → Option (Option Error × Worker)
  unfolding ran
  run_op op w = ran (record w { metrics = workers_inc ∷ w.metrics }) (X.execute op w.executor)

  unfoldable pub with_stats : Worker → Option StatsMap → Option Worker
  with_stats w none = none
  with_stats w (some m) = some (record w { stats = m })

  -- The switch on the outcome of an operation.
  unfoldable pub classify : Turn → String → Option (Option Error × Worker) → Option Worker
  unfolding is_skip is_shutdown_cancellation record_op_metrics record_skip with_stats record_op
  classify turn op none = none
  classify turn op (some (r, w)) =
      if is_skip r
      then some (record w { metrics = record_skip op w.metrics })
      else if is_shutdown_cancellation turn.done_after r
      then some w
      else with_stats (record w { metrics = record_op_metrics op turn.duration r w.metrics })
          (record_op F op turn.duration (is_error r) w.stats)

  unfoldable pub rolled : List WeightedOp → Turn → Worker → Option (ℕ × Rng) → Option Worker
  unfolding classify run_op select_op
  rolled ops turn w none = none
  rolled ops turn w (some (roll, g)) =
      let op = select_op roll ops in
      classify turn op (run_op op (record w { executor = X.with_rng w.executor g }))

  -- What a turn does after its first look at the context.
  unfoldable pub work : List WeightedOp → Turn → Worker → Option Worker
  unfolding rolled intn
  work ops turn w = rolled ops turn w (intn 100 (X.rng w.executor))

  unfoldable pub go_on : Bool → Turn → (Worker → Option Worker) → Option Worker → Option Worker
  go_on thinks turn next none = none
  go_on thinks turn next (some w) = if thinks && turn.done_thinking then some w else next w

  -- `RunWorker`; `thinks` says whether THINK_TIME_MS is positive.
  unfoldable pub run_worker : List WeightedOp → Bool → List Turn → Worker → Option Worker
  unfolding work go_on
  run_worker ops thinks [] w = some w
  run_worker ops thinks (turn ∷ turns) w =
      if turn.done_before
      then some w
      else go_on thinks turn (run_worker ops thinks turns) (work ops turn w)

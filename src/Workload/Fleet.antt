-- ===== src/Workload/Fleet.antt =====
-- main.go, the workers that it starts, all together: the goroutines of `RunWorker`, which share the
-- ring, the collector of the statistics and the metrics, and the drains between their steps.
--
-- `RecordOp`, on the metrics, and `Record`, on the worker's statistics, of an outcome are one event.
-- A turn of a worker is two events here, since others may run between: it executes an operation, and
-- it settles what the operation returned, as the switch of `RunWorker` does. An operation looks at
-- the ring once at most, so its event stands where it does; all else that it uses is its worker's
-- own, or is its database's, whose answers are arbitrary. An event of a worker that is not there, or
-- that has another event before it, changes nothing. `none` is a panic of some goroutine.
pub mod Grows
pub mod Sound
pub mod Settles
pub mod Safe
pub mod Load
pub mod Document
mod Tests
use pgstorm.Prelude.{
  ℕ, zero, suc, pos_part, String, Option, none, some, List, [], ◌∷◌, get_elem?, set,
}
use mathlib.Core.Option
use pgstorm.Config.{Config}
use pgstorm.Workload.Rng.{Rng, intn}
use pgstorm.Workload.Ring.{SessionRing}
use pgstorm.Workload.Payload.{Pools}
use pgstorm.Workload.Float.{Float64}
use pgstorm.Workload.Weights.{WeightedOp, select_op, op_names}
use pgstorm.Workload.Stats.Window.{StatsMap}
use pgstorm.Workload.Stats.Collector.{StatsCollector, drain}
use pgstorm.Workload.Stats.Run.{started}
use pgstorm.Workload.Templates.{Encoding}
use pgstorm.Workload.Profile.Init.{init_oltp}
use pgstorm.Workload.Ops.{Driver, Error, OltpExecutor}
use pgstorm.Workload.Worker.{MetricCall, Worker, Turn, run_op, classify}
use pgstorm.Workload.Worker.Oltp.{oltp}

module _ (F : Float64) (D : Driver) where
  -- An operation that has returned, with its error.
  pub record Returned : Type 0 where
    pub op : String
    pub error : Option (Error D)

  -- A worker's goroutine. The ring of its executor is the one that all share; it is kept there.
  pub record Member : Type 0 where
    pub executor : OltpExecutor D
    pub returned : Option Returned

  pub record Fleet : Type 0 where
    pub ring : SessionRing ℕ
    pub members : List Member
    pub collector : StatsCollector F
    pub metrics : List (MetricCall F (oltp D))

  pub data FleetEvent : Type 0 where
    executes : ℕ → FleetEvent
    settles : ℕ → Turn F (oltp D) → FleetEvent
    drains : ℕ → FleetEvent

  -- What a worker works on.
  abbrev pub worker_of : Fleet → Member → StatsMap → Worker F (oltp D)
  worker_of f m ws = record {
    executor = record m.executor { ring = f.ring };
    stats = ws;
    metrics = f.metrics;
  }

  unfoldable pub has_executed :
      Fleet → ℕ → String → Option (Option (Error D) × Worker F (oltp D)) → Option Fleet
  has_executed f i op none = none
  has_executed f i op (some (r, w)) = some (record f {
    ring = w.executor.ring;
    members =
        set f.members i
          (record { executor = w.executor; returned = some (record { op = op; error = r }) });
    metrics = w.metrics;
  })

  unfoldable pub rolled_one :
      List WeightedOp → Fleet → ℕ → Worker F (oltp D) → Option (ℕ × Rng) → Option Fleet
  unfolding has_executed run_op select_op
  rolled_one ops f i w none = none
  rolled_one ops f i w (some (roll, g)) =
      let op = select_op roll ops in
      has_executed f i op
        (run_op F (oltp D) op (record w { executor = record w.executor { rng = g } }))

  unfoldable pub settled : Fleet → ℕ → Member → Option (Worker F (oltp D)) → Option Fleet
  settled f i m none = none
  settled f i m (some w) = some (record f {
    members = set f.members i (record m { returned = none });
    collector = record f.collector { workers = set f.collector.workers i w.stats };
    metrics = w.metrics;
  })

  -- A worker that has not yet settled its last operation does not execute another.
  unfoldable pub execute_one :
      List WeightedOp → Fleet → ℕ → Member → Option Returned → StatsMap → Option Fleet
  unfolding rolled_one intn
  execute_one ops f i m (some r) ws = some f
  execute_one ops f i m none ws = rolled_one ops f i (worker_of f m ws) (intn 100 m.executor.rng)

  unfoldable pub settle_one :
      Fleet → ℕ → Turn F (oltp D) → Member → Option Returned → StatsMap → Option Fleet
  unfolding settled classify
  settle_one f i turn m none ws = some f
  settle_one f i turn m (some r) ws =
      settled f i m (classify F (oltp D) turn r.op (some (r.error, worker_of f m ws)))

  -- The worker of that number and its window, if there are.
  unfoldable pub at_worker :
      (Member → StatsMap → Option Fleet) → Fleet → Option Member → Option StatsMap → Option Fleet
  at_worker next f (some m) (some ws) = next m ws
  at_worker next f (some m) none = some f
  at_worker next f none ws = some f

  unfoldable pub fleet_step : List WeightedOp → Fleet → FleetEvent → Option Fleet
  unfolding at_worker execute_one settle_one drain
  fleet_step ops f (executes i) =
      at_worker (λ m ws. execute_one ops f i m m.returned ws) f (get_elem? f.members i)
        (get_elem? f.collector.workers i)
  fleet_step ops f (settles i turn) =
      at_worker (λ m ws. settle_one f i turn m m.returned ws) f (get_elem? f.members i)
        (get_elem? f.collector.workers i)
  fleet_step ops f (drains now) = some (record f { collector = (drain F now f.collector).1 })

  unfoldable pub run_fleet : List WeightedOp → Fleet → List FleetEvent → Option Fleet
  unfolding Option.bind fleet_step
  run_fleet ops f [] = some f
  run_fleet ops f (e ∷ es) = Option.bind (fleet_step ops f e) (λ g. run_fleet ops g es)

  -- What the workers find: each its source of numbers, its new ids and its database.
  pub record Surroundings : Type 0 where
    pub rngs : ℕ → Rng
    pub uuids : ℕ → ℕ → ℕ
    pub answers : ℕ → ℕ → Option D.DbError

  -- `newOLTPExecutor`, for the worker of that number.
  unfoldable pub new_executor : Config → SessionRing ℕ → Pools → Surroundings → ℕ → OltpExecutor D
  new_executor cfg ring pools sur i = record {
    ring = ring;
    pools = pools;
    read_payload = cfg.read_payload;
    delete_batch_size = pos_part cfg.delete_batch_size;
    rng = sur.rngs i;
    uuids = sur.uuids i;
    minted = 0;
    answers = sur.answers i;
    calls = 0;
    log = [];
  }

  -- So many workers, from that number on.
  unfoldable pub new_members : Config → SessionRing ℕ → Pools → Surroundings → ℕ → ℕ → List Member
  unfolding new_executor
  new_members cfg ring pools sur i zero = []
  new_members cfg ring pools sur i (suc n) =
      record { executor = new_executor cfg ring pools sur i; returned = none }
      ∷ new_members cfg ring pools sur (suc i) n

  -- The workers as `main` starts them, one window for each.
  unfoldable pub launched :
      Config → List WeightedOp → SessionRing ℕ → Pools → Surroundings → ℕ → Fleet
  unfolding new_members started op_names
  launched cfg ops ring pools sur now = record {
    ring = ring;
    members = new_members cfg ring pools sur 0 (pos_part cfg.workers);
    collector = started F (op_names ops) now (pos_part cfg.workers);
    metrics = [];
  }

  unfoldable pub run_with :
      Config
      → List WeightedOp
      → SessionRing ℕ
      → Surroundings
      → ℕ
      → List FleetEvent
      → Option Pools
      → Option Fleet
  unfolding launched run_fleet
  run_with cfg ops ring sur now es none = none
  run_with cfg ops ring sur now es (some pools) =
      run_fleet ops (launched cfg ops ring pools sur now) es

  -- A run: the set-up of the profile, the start of the workers, and what they do.
  unfoldable pub run_load :
      Encoding
      → (ℕ → ℕ)
      → Config
      → List WeightedOp
      → Surroundings
      → ℕ
      → List FleetEvent
      → Option Fleet
  unfolding init_oltp run_with
  run_load E ids cfg ops sur now es =
      let (ring, pools) = init_oltp E ids cfg in run_with cfg ops ring sur now es pools

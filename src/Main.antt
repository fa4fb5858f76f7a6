-- ===== src/Main.antt =====
-- main.go: the life of the process, from its settings to its result.
--
-- What surrounds the process is a parameter, `World`: the environment, the driver and the server,
-- the encoders and `make`, new ids, the names already in the metrics' registry, the answers to the measurements, what the workers and
-- the summaries do, and whether a signal comes before the run's time is over. The life is a list of
-- events, the oldest first; `fatal` is `log.Fatalf`, and `panicked` a panic. The HTTP server's
-- errors and the log's other lines are left out, and so is the end by a second signal.
pub mod Lifecycle
pub mod Probes
mod Tests
use pgstorm.Prelude.{
  not, ℕ, zero, suc, ◌*◌, ◌%◌, ℤ, pos, pos_part, bits, word, is_positive, ltb_ℤ, Bool, true, false,
  ◌&&◌, String, string_eq, Option, none, some, List, [], ◌∷◌, ◌++◌, map, if◌then◌else◌, Result, ok,
  err, ◌>>=◌, ◌>>◌,
}
use pgstorm.Config.{Env, Config, ConfigError, load}
use pgstorm.Db.{Server, Outcome, done, still_waiting, migrate_with_lock}
use pgstorm.Db.Pool.{Pgx, PoolError, PoolConfig, new_pool}
use pgstorm.Metrics.Registry.{register_metrics}
use pgstorm.Metrics.PoolCollector.{describe, new_pool_collector}
use pgstorm.Workload.Float.{Float64}
use pgstorm.Workload.Weights.{WeightedOp, WeightError, resolve_weights, op_names}
use pgstorm.Workload.Templates.{Encoding}
use pgstorm.Workload.Profile.{Profile, UnknownProfile, get_profile, registered_profiles}
use pgstorm.Workload.Snapshot.{
  DatasetSize, SizeRow, SettingRow, SnapshotError, snapshot_dataset, snapshot_server_info,
  dataset_snapshot, DatasetSnapshot, ServerInfo,
}
use pgstorm.Workload.Stats.Collector.{StatsCollector}
use pgstorm.Workload.Stats.Run.{Event, run, started}
use pgstorm.Workload.RunResult.{RunMeta, RunResult}
use pgstorm.Workload.RunResult.Timeseries.{final_result}

-- The answer to a query of rows.
abbrev pub Rows : Type 0 → Type 0 → Type 0
Rows E R = Result E (List (Result E R) × Option E)

pub record World (F : Float64) : Type 1 where
  pub env : Env
  pub encoding : Encoding
  pub ids : ℕ → ℕ
  pub pgx : Pgx
  pub server : Server
  -- What `ctx.Done` says at each poll of a replica that waits for the schema.
  pub stops : List Bool
  pub registered : List String
  pub Error : Type 0
  pub size_at_start : Rows Error SizeRow
  pub settings : Rows Error SettingRow
  pub size_at_end : Rows Error SizeRow
  -- What happens to the statistics, of so many workers for these operations.
  pub history : List String → ℕ → List (Event F)
  pub signal_first : Bool
  -- When the collector is made, when it is finalised, and the end that `Finalize` reports.
  pub start_time : ℕ
  pub drain_time : ℕ
  pub end_time : ℕ

-- `time.Duration(secs) * time.Second`
unfoldable pub seconds_of : ℤ → ℕ
seconds_of secs = bits secs * 1000000000 % word

abbrev pub upto : ℕ → ℕ → List ℕ
upto i zero = []
upto i (suc n) = i ∷ upto (suc i) n

abbrev pub map_err : {E E' A : Type 0} → (E → E') → Result E A → Result E' A
map_err f (ok a) = ok a
map_err f (err e) = err (f e)

abbrev pub measured : {E A : Type 0} → Result E A → Option A
measured (ok a) = some a
measured (err e) = none

module _ (F : Float64) (w : World F) where
  pub data Fatal : Type 0 where
    load_config : ConfigError → Fatal
    select_profile : UnknownProfile → Fatal
    resolve_op_weights : WeightError → Fatal
    create_pool : PoolError w.pgx → Fatal
    migrate : Outcome w.server → Fatal
    init_profile : String → Fatal

  pub data Happening : Type 0 where
    fatal : Fatal → Happening
    panicked : Happening
    -- The metrics are registered under these names, and served.
    serving : List String → Happening
    measured_at_start : Option DatasetSize → Option ServerInfo → Happening
    summary_loop : Happening
    table_stats_loop : Happening
    pg_stats_loop : Happening
    index_stats_loop : Happening
    worker_started : ℕ → Happening
    ready : Happening
    stopping : String → Happening
    workers_stopped : Happening
    result_written : String → RunResult F → Happening
    server_shut_down : Happening

  -- What is decided before anything runs.
  pub record Plan : Type 0 where
    pub cfg : Config
    pub profile : Profile
    pub ops : List WeightedOp

  -- A wait that has used up its polls has not returned: the life ends there.
  unfoldable pub migrated : Outcome w.server → Result Fatal (Unit {0})
  migrated done = ok tt
  migrated o = err (migrate o)

  -- `main`, up to `profile.Init`.
  unfoldable pub plan : Result Fatal Plan
  unfolding migrated
  plan = map_err load_config (load w.env) >>= λ cfg.
      map_err select_profile (get_profile cfg.profile (registered_profiles w.encoding w.ids))
      >>= λ profile. map_err resolve_op_weights (resolve_weights w.env profile.ops) >>= λ ops.
          map_err create_pool (new_pool w.pgx cfg).0 >>= λ pool.
          migrated (migrate_with_lock w.server profile.schema cfg.create_indexes w.stops []).0
          >> ok (record { cfg = cfg; profile = profile; ops = ops })

  -- The measurements at the start, if a result will be written.
  unfoldable pub size_measured : Config → Option DatasetSize
  size_measured cfg =
      if string_eq.beq cfg.result_json_path ""
      then none
      else measured (snapshot_dataset w.size_at_start)

  unfoldable pub settings_read : Config → Option ServerInfo
  settings_read cfg =
      if string_eq.beq cfg.result_json_path ""
      then none
      else measured (snapshot_server_info w.settings)

  -- `time.NewTicker` panics at an interval that is not positive; that ends the process, here before
  -- the loops.
  abbrev pub ticks : ℤ → Bool
  ticks secs = is_positive (seconds_of secs)

  unfoldable pub loops : Config → List Happening
  loops cfg =
      summary_loop
      ∷ table_stats_loop
      ∷ pg_stats_loop
      ∷ (if cfg.create_indexes then index_stats_loop ∷ [] else [])

  unfoldable pub workers_of : Config → ℕ
  workers_of cfg = pos_part cfg.workers

  -- How the run ends: with no duration, by a signal only.
  unfoldable pub stopped_by : Config → String
  stopped_by cfg =
      if ltb_ℤ (pos 0) cfg.run_duration_secs && not w.signal_first then "duration" else "signal"

  abbrev snapshot_of : Option DatasetSize → Option DatasetSize → Option DatasetSnapshot
  snapshot_of (some a) (some b) = some (dataset_snapshot a b)
  snapshot_of a b = none

  unfoldable pub meta_of : Config → RunMeta F
  unfolding size_measured settings_read stopped_by
  meta_of cfg = record {
    dataset = snapshot_of (size_measured cfg) (measured (snapshot_dataset w.size_at_end));
    server = settings_read cfg;
    stopped_by = stopped_by cfg;
    timeseries = [];
  }

  -- The result, if it is asked for; a failure to write it changes nothing of what follows.
  unfoldable pub write_result : Plan → StatsCollector F → List Happening
  unfolding meta_of
  write_result p c =
      if string_eq.beq p.cfg.result_json_path ""
      then []
      else result_written p.cfg.result_json_path
          (final_result F c w.drain_time w.end_time p.cfg p.ops (meta_of p.cfg))
        ∷ []

  -- From the workers' stop on. The workers and the loops may have panicked before.
  unfoldable pub stop : Plan → Option (StatsCollector F) → List Happening
  unfolding write_result
  stop p none = panicked ∷ []
  stop p (some c) = workers_stopped ∷ (write_result p c ++ (server_shut_down ∷ []))

  -- From the first worker on.
  unfoldable pub work : Plan → List Happening
  unfolding stop workers_of stopped_by
  work p =
      map worker_started (upto 0 (workers_of p.cfg))
      ++ (ready
          ∷ stopping (stopped_by p.cfg)
          ∷ stop p (
              run F (started F (op_names p.ops) w.start_time (workers_of p.cfg))
                (w.history (op_names p.ops) (workers_of p.cfg))))

  -- From the registration of the metrics on.
  unfoldable pub launch : Plan → Option (List String) → List Happening
  unfolding loops work
  launch p none = panicked ∷ []
  launch p (some names) =
      serving names
      ∷ measured_at_start (size_measured p.cfg) (settings_read p.cfg)
      ∷ (if ticks p.cfg.summary_interval_secs && ticks p.cfg.index_stats_interval_secs
          then loops p.cfg ++ work p
          else panicked ∷ [])

  -- From what `profile.Init` does: it panics, or returns an error or none.
  unfoldable pub initialised : Plan → Option (Option String) → List Happening
  unfolding launch
  initialised p none = panicked ∷ []
  initialised p (some (some e)) = fatal (init_profile e) ∷ []
  initialised p (some none) =
      launch p (register_metrics (describe new_pool_collector) p.cfg.create_indexes w.registered)

  unfoldable pub live : Result Fatal Plan → List Happening
  unfolding initialised
  live (err e) = fatal e ∷ []
  live (ok p) = initialised p (p.profile.init p.cfg)

  -- `main`
  unfoldable pub main : List Happening
  unfolding live plan
  main = live plan

  abbrev pub is_ready : Happening → Bool
  is_ready ready = true
  is_ready h = false

  -- The flag `ready` after these happenings.
  unfoldable pub ready_after : List Happening → Bool
  ready_after [] = false
  ready_after (h ∷ hs) = if is_ready h then true else ready_after hs

-- The handler of `/healthz`: the status of its answer.
unfoldable pub healthz : ℕ
healthz = 200

-- The handler of `/readyz`, by what `ready.Load` says.
unfoldable pub readyz : Bool → ℕ
readyz true = 200
readyz false = 503

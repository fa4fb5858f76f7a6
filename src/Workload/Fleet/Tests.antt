-- ===== src/Workload/Fleet/Tests.antt =====
-- Workers on the default settings and mix, each with a database of its own.
use pgstorm.Prelude.{
  ℕ, ◌+◌, ◌*◌, true, false, none, some, ◌≡◌, refl, List, [], ◌∷◌, map, All, pos, ok, ◌==◌,
  if◌then◌else◌, length, lookup, insert, String, string_eq, count_if,
}
use mathlib.Core.Option
use pgstorm.Config.{Config, read_config}
use pgstorm.Workload.Ring.{SessionRing, sample}
use pgstorm.Workload.Ring.Recent.{Represents}
use pgstorm.Workload.Payload.{Pools}
use pgstorm.Workload.Float.{exact}
use pgstorm.Workload.Weights.{WeightedOp, resolve_weights}
use pgstorm.Workload.Weights.Resolve.{resolved}
use pgstorm.Workload.Profile.{oltp_ops}
use pgstorm.Workload.Stats.Window.{new_worker_stats, snapshot}
use pgstorm.Workload.Stats.Collector.{finalize, register_worker, new_collector, drain_workers}
use pgstorm.Workload.Templates.Tests.{
  texts, texts-Laws, no_settings, defaults-IsValid, defaults-Affordable, ids,
}
use pgstorm.Workload.Ops.{Driver}
use pgstorm.Workload.Ops.Handlers.{execute}
use pgstorm.Workload.Worker.{Turn, ops_total, op_duration, workers_inc, workers_dec}
use pgstorm.Workload.Worker.Oltp.{oltp}
use pgstorm.Workload.Worker.Account.{dones}
use pgstorm.Workload.Fleet.{
  Fleet, FleetEvent, executes, settles, drains, run_fleet, Surroundings, launched, run_load,
}
use pgstorm.Workload.Fleet.Sound.{pending, IsKnown}
use pgstorm.Workload.Fleet.Document.{Tells, run_load-Tells}
use pgstorm.Workload.RunResult.{RunMeta}
use pgstorm.Workload.RunResult.Timeseries.{final_result}
use pgstorm.Workload.Fleet.Load.{Accounts, run_load-Accounts}

-- Errors are numbers; 1 is a cancellation.
abbrev postgres : Driver
postgres = record { DbError = ℕ; is_no_rows = λ x. x == 0; is_context_error = λ x. x == 1 }

-- The second worker's first call fails.
abbrev around : Surroundings exact postgres
around = record {
  rngs = λ i. record { numbers = λ n. 7 * n + i; used = 0 };
  uuids = λ i n. 1000 * i + n;
  answers = λ i n. if i == 1 then if n == 0 then some 7 else none else none;
}

abbrev settings : Config
settings = read_config no_settings

abbrev mix : List WeightedOp
mix = map (resolved no_settings) oltp_ops

accepted : resolve_weights no_settings oltp_ops ≡ ok mix
unfolding resolve_weights oltp_ops
accepted = refl

abbrev turn : Turn exact (oltp postgres)
turn = record { done_before = false; duration = 2000; done_after = false; done_thinking = false }

abbrev schedule : List (FleetEvent exact postgres)
schedule = executes 0 ∷ executes 1 ∷ settles 1 turn ∷ drains 5 ∷ settles 0 turn ∷ []

run_load-Accounts_example :
    (f : Fleet exact postgres) × (run_load exact postgres texts ids settings mix around 3 schedule
      ≡ some f)
    × ((k : String) → IsKnown mix k → Accounts exact k f (finalize exact 9 f.collector).0.0)
    × ((recent : List ℕ) × Represents f.ring recent
        × (length recent
            ≡ dones exact (oltp postgres) "insert" f.metrics + pending exact f.members))
run_load-Accounts_example =
    run_load-Accounts exact texts ids no_settings settings mix around 3 schedule texts-Laws
      defaults-IsValid defaults-Affordable accepted 9

-- Two workers that delete, on a ring that holds one id.
abbrev deletes : List WeightedOp
deletes = record { name = "delete"; weight = pos 100 } ∷ []

abbrev for_two : Config
for_two = record settings { workers = pos 2 }

abbrev ring : SessionRing ℕ
ring = record { buf = 77 ∷ 0 ∷ []; size = 2; head = 1; fill = 1 }

abbrev pools : Pools
pools = record {
  session_templates = [];
  event_templates = [];
  audit_templates = [];
  small_payloads = [];
  small_audits = [];
  toast_pct = 50;
  users = [];
  actors = [];
}

abbrev pair : Fleet exact postgres
pair = launched exact postgres for_two deletes ring pools around 3

interleaved :
    Option.map
      (λ (f : Fleet exact postgres). f.metrics)
      (run_fleet exact postgres deletes pair schedule)
    ≡ some (
        op_duration "delete" 2000
        ∷ ops_total "delete" false
        ∷ ops_total "delete" true
        ∷ workers_dec
        ∷ workers_inc
        ∷ workers_dec
        ∷ workers_inc
        ∷ [])
unfolding run_fleet launched register_worker new_collector execute sample lookup new_worker_stats
    insert drain_workers snapshot
interleaved = refl

abbrev unmeasured : RunMeta exact
unmeasured = record { timeseries = []; stopped_by = "signal"; server = none; dataset = none }

run_load-Tells_example :
    (f : Fleet exact postgres) × (run_load exact postgres texts ids settings mix around 3 schedule
      ≡ some f)
    × All
        (λ o. IsKnown mix o.op × Tells exact f o)
        (final_result exact f.collector 9 10 settings mix unmeasured).operations
    × ((k : String)
        → IsKnown mix k
        → count_if
            (λ j. string_eq.beq j k)
            (map
              (λ o. o.op)
              (final_result exact f.collector 9 10 settings mix unmeasured).operations)
          ≡ 1)
run_load-Tells_example =
    run_load-Tells exact texts ids no_settings settings mix around 3 9 10 unmeasured schedule
      texts-Laws defaults-IsValid defaults-Affordable accepted

-- ===== src/Workload/Worker/Tests.antt =====
-- A run of a worker on the operations of the `oltp-jsonb` profile.
use pgstorm.Prelude.{
  ℕ, ◌+◌, ◌*◌, Bool, true, false, none, some, ◌≡◌, refl, List, [], ◌∷◌, pos, if◌then◌else◌, ◌==◌,
  lookup, insert, adjust,
}
use pgstorm.Workload.Rng.{intn}
use pgstorm.Workload.Ring.{sample}
use pgstorm.Workload.Float.{exact}
use pgstorm.Workload.Weights.{WeightedOp, select_op}
use pgstorm.Workload.Stats.Window.{record_op, record_us, new_worker_stats, add_at}
use pgstorm.Workload.Ops.{Driver, OltpExecutor, delete_events}
use pgstorm.Workload.Ops.Handlers.{execute}
use pgstorm.Workload.Worker.{
  Executor, ops_total, op_duration, workers_inc, workers_dec, Worker, Turn, run_worker,
}
use pgstorm.Workload.Worker.Oltp.{oltp}
use pgstorm.Workload.Worker.Account.{Agree, fresh, run_worker-Agree}

-- Errors are numbers; 1 is a cancellation.
abbrev postgres : Driver
postgres = record { DbError = ℕ; is_no_rows = λ x. x == 0; is_context_error = λ x. x == 1 }

-- The first call succeeds, the second fails, the third is cancelled.
abbrev executor : OltpExecutor postgres
executor = record {
  ring = record { buf = 77 ∷ 0 ∷ []; size = 2; head = 1; fill = 1 };
  pools = record {
    session_templates = [];
    event_templates = [];
    audit_templates = [];
    small_payloads = [];
    small_audits = [];
    toast_pct = 50;
    users = [];
    actors = [];
  };
  read_payload = true;
  delete_batch_size = 10;
  rng = record { numbers = λ n. 5 * n + 2; used = 0 };
  uuids = λ n. n + 1000;
  minted = 0;
  answers = λ n. if n == 0 then none else if n == 1 then some 7 else some 1;
  calls = 0;
  log = [];
}

abbrev X : Executor
X = oltp postgres

abbrev deletes : List WeightedOp
deletes = record { name = "delete"; weight = pos 100 } ∷ []

abbrev turn : Bool → Bool → Turn exact X
turn before after = record {
  done_before = before;
  duration = 2000;
  done_after = after;
  done_thinking = false;
}

-- Four turns: the last finds the context done.
abbrev turns : List (Turn exact X)
turns = turn false false ∷ turn false false ∷ turn false true ∷ turn true true ∷ []

abbrev done : Worker exact X
done = record {
  executor = record executor {
    rng = record { numbers = λ n. 5 * n + 2; used = 6 };
    calls = 3;
    log = delete_events 77 10 ∷ delete_events 77 10 ∷ delete_events 77 10 ∷ [];
  };
  stats = ("delete", record { count = 2; errors = 1; latencies = (2000, 1) ∷ [] }) ∷ [];
  metrics =
      workers_dec
      ∷ workers_inc
      ∷ ops_total "delete" true
      ∷ workers_dec
      ∷ workers_inc
      ∷ op_duration "delete" 2000
      ∷ ops_total "delete" false
      ∷ workers_dec
      ∷ workers_inc
      ∷ [];
}

runs : run_worker exact X deletes true turns (fresh exact X executor ("delete" ∷ [])) ≡ some done
unfolding run_worker fresh intn sample record_op select_op execute record_us new_worker_stats add_at
    lookup insert adjust
runs = refl

run_worker-Agree_example : Agree exact X "delete" done
run_worker-Agree_example =
    run_worker-Agree exact X "delete" deletes true turns executor ("delete" ∷ []) done runs

-- ===== src/Workload/Ops/Tests.antt =====
-- Operations on concrete answers.
use pgstorm.Prelude.{
  zero, suc, pos, List, All, length-replicate, arith, ℕ, ◌+◌, ◌*◌, true, false, Option, none, some,
  ◌≡◌, refl, [], ◌∷◌, codes, negsuc, replicate, string_eq, Result, ok, err, if◌then◌else◌, ◌==◌,
}
use pgstorm.Workload.Ring.{push, sample}
use pgstorm.Workload.Payload.{Template, Pools}
use pgstorm.Workload.Ops.{
  read_join, begin, rollback, lock_session, delete_events, Driver, Error, skipped, unknown_op,
  OltpExecutor,
}
use pgstorm.Workload.Ops.Statements.{sql_of, args_of, dests_of}
use pgstorm.Workload.Ops.Statements.Typed.{IsTyped, call-IsTyped}
use pgstorm.Workload.Ops.Handlers.{execute}
use pgstorm.Workload.Ops.Session.{Executed}
use pgstorm.Workload.Ring.{new_ring}
use pgstorm.Workload.Ring.Recent.{new_ring-Represents}
use pgstorm.Workload.Payload.Mutation.{FitsField}
use pgstorm.Workload.Payload.Stocked.{IsFull}
use pgstorm.Workload.Ops.Steps.{Ready, Runs}
use pgstorm.Workload.Ops.Total.{execute-Runs}
use pgstorm.Workload.Ops.Contract.{RuleFor, execute-Executed}

-- A driver whose errors are numbers: 0 is no rows, 1 a cancellation.
abbrev postgres : Driver
postgres = record { DbError = ℕ; is_no_rows = λ x. x == 0; is_context_error = λ x. x == 1 }

abbrev no_field : Template
no_field = record { text = codes "{}"; offset = negsuc 0 }

abbrev pools : Pools
pools = record {
  session_templates = replicate 100 no_field;
  event_templates = replicate 100 no_field;
  audit_templates = replicate 100 no_field;
  small_payloads = replicate 100 no_field;
  small_audits = replicate 100 no_field;
  toast_pct = 50;
  users = 11 ∷ 12 ∷ [];
  actors = 13 ∷ [];
}

abbrev executor : (ℕ → Option ℕ) → OltpExecutor postgres
executor answers = record {
  ring = record { buf = 77 ∷ 0 ∷ []; size = 2; head = 1; fill = 1 };
  pools = pools;
  read_payload = true;
  delete_batch_size = 10;
  rng = record { numbers = λ n. 5 * n + 2; used = 0 };
  uuids = λ n. n + 1000;
  minted = 0;
  answers = answers;
  calls = 0;
  log = [];
}

abbrev fine : OltpExecutor postgres
fine = executor (λ n. none)

-- Every call after the first fails.
abbrev failing : OltpExecutor postgres
failing = executor (λ n. if n == 0 then none else some 0)

deletes :
    execute "delete" fine
    ≡ some (
      ok tt,
      record fine {
        rng = record { numbers = fine.rng.numbers; used = 1 };
        calls = 1;
        log = delete_events 77 10 ∷ [];
      },
    )
unfolding execute sample
deletes = refl

-- The session is locked by another worker.
update_skips :
    execute "update" failing
    ≡ some (
      err skipped,
      record failing {
        rng = record { numbers = fine.rng.numbers; used = 3 };
        calls = 3;
        log = rollback ∷ lock_session 77 ∷ begin ∷ [];
      },
    )
unfolding execute sample
update_skips = refl

unknown : execute "vacuum" fine ≡ some (err (unknown_op "vacuum"), fine)
unfolding execute
unknown = refl

-- What an insert leaves behind when every call succeeds.
abbrev inserted :
    OltpExecutor postgres
    → Option (Result (Error postgres) (Unit {0}) × OltpExecutor postgres)
    → OltpExecutor postgres
inserted s none = s
inserted s (some (r, t)) = t

insert_pushes :
    (inserted fine (execute "insert" fine)).ring
    ≡ record { buf = 77 ∷ 1000 ∷ []; size = 2; head = 0; fill = 2 }
unfolding execute push
insert_pushes = refl

execute-Executed_example : Executed (RuleFor false) (err skipped) failing (record failing {
  rng = record { numbers = fine.rng.numbers; used = 3 };
  calls = 3;
  log = rollback ∷ lock_session 77 ∷ begin ∷ [];
})
execute-Executed_example = execute-Executed "update" failing _ (err skipped) update_skips

abbrev with_field : Template
with_field = record { text = codes "{\"k\":\"0000000000000000\"}"; offset = pos 6 }

with_field-FitsField : (n : ℕ) → All FitsField (replicate n with_field)
with_field-FitsField zero = tt
with_field-FitsField (suc n) = ((6, refl, omega arith), with_field-FitsField n)

abbrev full : List Template
full = replicate 100 with_field

-- A worker at the start of a run.
abbrev starting : OltpExecutor postgres
starting = record (executor (λ n. if n == 3 then some 7 else none)) {
  ring = new_ring 0 2;
  pools = record {
    session_templates = full;
    event_templates = full;
    audit_templates = full;
    small_payloads = full;
    small_audits = full;
    toast_pct = 50;
    users = 11 ∷ 12 ∷ [];
    actors = 13 ∷ [];
  };
}

full-IsFull : IsFull full
full-IsFull = (length-replicate 100 with_field, with_field-FitsField 100)

starting-Ready : Ready starting
starting-Ready = record {
  recent = [];
  ring = new_ring-Represents 0 2 (omega arith);
  stocked = record {
    sessions = full-IsFull;
    events = full-IsFull;
    audits = full-IsFull;
    payloads = full-IsFull;
    small_audits = full-IsFull;
    some_user = omega arith;
    some_actor = omega arith;
  };
}

execute-Runs_example : Runs (execute "insert" starting)
execute-Runs_example = execute-Runs "insert" starting starting-Ready

call-IsTyped_example :
    IsTyped
      (sql_of (read_join 77 "info"))
      (args_of (read_join 77 "info"))
      (dests_of (read_join 77 "info"))
call-IsTyped_example = call-IsTyped (read_join 77 "info")

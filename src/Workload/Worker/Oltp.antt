-- ===== src/Workload/Worker/Oltp.antt =====
-- The executor of the `oltp-jsonb` profile, as workers use it: `OLTPProfile.NewExecutor` and what
-- `errors.Is` finds in the errors of workload/ops.go.
use pgstorm.Prelude.{Bool, true, false, Option, none, some, Result, ok, err}
use pgstorm.Workload.Ops.{Driver, Error, skipped, unknown_op, database, wrapped, OltpExecutor}
use pgstorm.Workload.Ops.Handlers.{execute}
use pgstorm.Workload.Worker.{Executor}

module _ (D : Driver) where
  abbrev pub is_skipped : Error D → Bool
  is_skipped skipped = true
  is_skipped (unknown_op op) = false
  is_skipped (database x) = false
  is_skipped (wrapped text e) = is_skipped e

  abbrev pub is_context_error : Error D → Bool
  is_context_error skipped = false
  is_context_error (unknown_op op) = false
  is_context_error (database x) = D.is_context_error x
  is_context_error (wrapped text e) = is_context_error e

  -- The error of a result, `nil` as `none`.
  abbrev returned :
      Option (Result (Error D) (Unit {0}) × OltpExecutor D)
      → Option (Option (Error D) × OltpExecutor D)
  returned none = none
  returned (some (ok a, s)) = some (none, s)
  returned (some (err x, s)) = some (some x, s)

  abbrev pub oltp : Executor
  oltp = record {
    State = OltpExecutor D;
    Error = Error D;
    execute = λ op s. returned (execute op s);
    rng = λ s. s.rng;
    with_rng = λ s g. record s { rng = g };
    is_skipped = is_skipped;
    is_context_error = is_context_error;
  }

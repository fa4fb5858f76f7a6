-- ===== src/Workload/Ops.antt =====
-- workload/ops.go: the operations of the `oltp-jsonb` profile, each a sequence of calls of the
-- database, of draws from the worker's source of numbers and of accesses to the ring.
--
-- The driver is a parameter: its errors, which of them is `pgx.ErrNoRows`, and the answers to the
-- calls in the order in which they are made. The calls are kept in a log, the newest first; each
-- constructor of `Call` stands for one SQL statement with its arguments. An id is a number of 128
-- bits, its first byte the most significant; `uuid.New` gives the numbers of a stream. A number
-- that the code prints in hexadecimal stands for that text.
--
-- A computation is `none` where the Go code panics.
pub mod Handlers
pub mod Outcome
pub mod Quiet
pub mod Session
pub mod Bodies
pub mod Contract
pub mod Steps
pub mod Total
pub mod Statements
mod Tests
use pgstorm.Prelude.{
  ℕ, suc, zero, ◌+◌, ◌/◌, ◌%◌, ◌^◌, Bool, true, false, String, Option, none, some, List, [], ◌∷◌,
  ◌==◌, if◌then◌else◌, Result, ok, err,
}
use pgstorm.Workload.Rng.{Rng, Rand, intn, int63, pick}
use pgstorm.Workload.Ring.{SessionRing, push, sample}
use pgstorm.Workload.Payload.{
  Bytes, Pools, get_session_payload, get_event_payload, get_audit_diff, pick_user, pick_actor,
}

-- An event's row, without the id of its session.
pub record EventRow : Type 0 where
  pub event_id : ℕ
  pub event_type : String
  pub payload : Bytes
  pub severity : String
  pub trace_id : ℕ
  pub source_ip : ℕ × ℕ

pub data Call : Type 0 where
  begin : Call
  commit : Call
  rollback : Call
  insert_session : ℕ → ℕ → String → Bytes → Call
  insert_event : ℕ → EventRow → Call
  insert_audit : ℕ → ℕ → String → ℕ → Bytes → ℕ → Call
  lock_session : ℕ → Call
  update_session : ℕ → Bytes → Call
  delete_events : ℕ → ℕ → Call
  read_simple : Bool → ℕ → Call
  read_join : ℕ → String → Call
  read_by_ip : Bool → ℕ → Call
  rows_err : Call

-- What the driver of the database is to this code.
pub record Driver : Type 1 where
  pub DbError : Type 0
  pub is_no_rows : DbError → Bool
  -- `errors.Is` with `context.Canceled` or with `context.DeadlineExceeded`
  pub is_context_error : DbError → Bool

abbrev pub regions : List String
regions = "us-east-1" ∷ "us-west-2" ∷ "eu-west-1" ∷ "ap-southeast-1" ∷ "ap-northeast-1" ∷ []

abbrev pub severities : List String
severities = "info" ∷ "warn" ∷ "error" ∷ "debug" ∷ []

abbrev pub event_types : List String
event_types = "request" ∷ "response" ∷ "error" ∷ "auth" ∷ "payment" ∷ "audit" ∷ "system" ∷ []

module _ (D : Driver) where
  open D use {DbError}

  pub data Error : Type 0 where
    skipped : Error
    unknown_op : String → Error
    database : DbError → Error
    wrapped : String → Error → Error

  -- `oltpExecutor` and what it reaches: `answers` and `uuids` are read in order.
  pub record OltpExecutor : Type 0 where
    pub ring : SessionRing ℕ
    pub pools : Pools
    pub read_payload : Bool
    pub delete_batch_size : ℕ
    pub rng : Rng
    pub uuids : ℕ → ℕ
    pub minted : ℕ
    pub answers : ℕ → Option DbError
    pub calls : ℕ
    pub log : List Call

  abbrev pub Op {ℓ} : Type ℓ → Type ℓ
  Op A = OltpExecutor → Option (Result Error A × OltpExecutor)

module _ {D : Driver} where
  -- What follows a computation that did not panic: it goes on unless there is an error.
  unfoldable pub continue {ℓ κ} :
      {A : Type ℓ} {B : Type κ}
      → (A → Op D B)
      → Option (Result (Error D) A × OltpExecutor D)
      → Option (Result (Error D) B × OltpExecutor D)
  continue next none = none
  continue next (some (err x, s)) = some (err x, s)
  continue next (some (ok a, s)) = next a s

  infixl 5 ◌>>=◌
  abbrev pub ◌>>=◌ {ℓ κ} : {A : Type ℓ} {B : Type κ} → Op D A → (A → Op D B) → Op D B
  ◌>>=◌ m next s = continue next (m s)

  infixl 5 ◌>>◌
  abbrev pub ◌>>◌ {ℓ κ} : {A : Type ℓ} {B : Type κ} → Op D A → Op D B → Op D B
  ◌>>◌ m rest s = continue (λ _. rest) (m s)

  abbrev pub fail {ℓ} : {A : Type ℓ} → Error D → Op D A
  fail x s = some (err x, s)

  abbrev pub return {ℓ} : {A : Type ℓ} → A → Op D A
  return a s = some (ok a, s)

  unfoldable pub drawn {ℓ} :
      {A : Type ℓ}
      → OltpExecutor D
      → Option (A × Rng)
      → Option (Result (Error D) A × OltpExecutor D)
  drawn s none = none
  drawn s (some (a, g)) = some (ok a, record s { rng = g })

  -- A draw from `e.rng`.
  unfoldable pub draw {ℓ} : {A : Type ℓ} → Rand A → Op D A
  unfolding drawn
  draw d s = drawn s (d s.rng)

  unfoldable pub new_uuid : Op D ℕ
  new_uuid s = some (ok (s.uuids s.minted), record s { minted = s.minted + 1 })

  -- A call of the database, and its error.
  unfoldable pub ask : Call → Op D (Option D.DbError)
  ask c s = some (ok (s.answers s.calls), record s { calls = s.calls + 1; log = c ∷ s.log })

  abbrev pub failed_with : (D.DbError → Error D) → Option D.DbError → Op D (Unit {0})
  failed_with wrap none = return tt
  failed_with wrap (some x) = fail (wrap x)

  -- A call whose error, as `wrap` makes it, ends the operation.
  unfoldable pub must : (D.DbError → Error D) → Call → Op D (Unit {0})
  unfolding ask continue
  must wrap c = ask c >>= failed_with wrap

  abbrev pub because : String → D.DbError → Error D
  because text x = wrapped text (database x)

  unfoldable pub rolled_back {ℓ} :
      {A : Type ℓ}
      → Option (Result (Error D) A × OltpExecutor D)
      → Option (Result (Error D) A × OltpExecutor D)
  rolled_back none = none
  rolled_back (some (r, s)) = some (r, record s { calls = s.calls + 1; log = rollback ∷ s.log })

  -- `Begin`, then a body under the deferred `Rollback`, whose error is ignored.
  unfoldable pub in_tx {ℓ} : {A : Type ℓ} → Op D A → Op D A
  unfolding must continue rolled_back
  in_tx body = must database begin >> λ s. rolled_back (body s)

  unfoldable pub sampled :
      OltpExecutor D → Option ((ℕ × Bool) × Rng) → Option (Result (Error D) ℕ × OltpExecutor D)
  sampled s none = none
  sampled s (some ((id, found), g)) =
      if found then some (ok id, record s { rng = g }) else some (err skipped, record s { rng = g })

  -- `Sample`, and a skip on an empty ring.
  unfoldable pub sample_session : Op D ℕ
  unfolding sampled
  sample_session s = sampled s (sample 0 s.ring s.rng)

  unfoldable pub pushed :
      OltpExecutor D
      → Option (SessionRing ℕ)
      → Option (Result (Error D) (Unit {0}) × OltpExecutor D)
  pushed s none = none
  pushed s (some r) = some (ok tt, record s { ring = r })

  unfoldable pub push_session : ℕ → Op D (Unit {0})
  unfolding pushed
  push_session id s = pushed s (push s.ring id)

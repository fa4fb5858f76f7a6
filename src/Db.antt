-- ===== src/Db.antt =====
-- db/schema.go: creating a profile's tables and indexes under an advisory lock, or waiting for the
-- replica that does.
--
-- The database server is a parameter: how it answers a call may depend on the whole history of
-- calls, the newest first, so that other replicas may act in between. A failure of `Scan` is the
-- failure of its query. What `ctx.Done` says at each poll is a list; a wait that has used it up is
-- still polling.
pub mod Pool
pub mod Migration
pub mod Readiness
pub mod Arrival
pub mod Catalogue
mod Tests
use pgstorm.Prelude.{
  Bool, true, false, not, ◌&&◌, String, string_eq, Option, none, some, List, [], ◌∷◌, if◌then◌else◌,
}

pub record Schema : Type 0 where
  pub tables : List String
  pub indexes : List String
  pub tracked_tables : List String
  pub sentinel_index : String

pub data Call : Type 0 where
  acquire : Call
  release : Call
  try_lock : Call
  unlock : Call
  exec : String → Call
  list_tables : List String → Call
  query_index : String → Call

abbrev pub History : Type 0
History = List Call

pub record Server : Type 1 where
  pub Error : Type 0
  -- The error of the newest call.
  pub failure : History → Option Error
  -- Whether `pg_try_advisory_lock` gave the lock.
  pub grants : History → Bool
  -- The table names that were read.
  pub found : History → List String
  pub has_index : History → Bool

abbrev pub contains : String → List String → Bool
contains t [] = false
contains t (x ∷ xs) = if string_eq.beq x t then true else contains t xs

-- `checkMissingTables`, on the names found.
unfoldable pub missing : List String → List String → List String
missing [] found = []
missing (t ∷ required) found =
    let rest = missing required found in if contains t found then rest else t ∷ rest

pub data WaitOutcome : Type 0 where
  ready : WaitOutcome
  cancelled : WaitOutcome
  polling : WaitOutcome

module _ (V : Server) where
  open V use {Error, failure, grants}

  pub data Outcome : Type 0 where
    done : Outcome
    no_connection : Error → Outcome
    lock_failed : Error → Outcome
    tables_failed : Error → Outcome
    indexes_failed : Error → Outcome
    wait_cancelled : Outcome
    still_waiting : Outcome

  -- The loop of `CreateTables` and of `CreateIndexes`: it stops at the first error.
  unfoldable pub exec_all : List String → History → Option Error × History
  exec_all [] h = (none, h)
  exec_all (ddl ∷ ddls) h = elim (failure (exec ddl ∷ h)) [
    | some e ↦ (some e, exec ddl ∷ h)
    | none ↦ exec_all ddls (exec ddl ∷ h)
  ]

  -- `CreateTables`
  unfoldable pub create_tables : Schema → History → Option Error × History
  unfolding exec_all
  create_tables schema h = exec_all schema.tables h

  -- `CreateIndexes`
  unfoldable pub create_indexes : Schema → History → Option Error × History
  unfolding exec_all
  create_indexes schema h = exec_all schema.indexes h

  -- `checkMissingTables`, after its query.
  unfoldable pub check_missing_tables : List String → History → List String
  unfolding missing
  check_missing_tables required h = elim (failure h) [
    | some e ↦ required
    | none ↦ missing required (V.found h)
  ]

  -- `indexExists`, after its query.
  unfoldable pub index_exists : History → Bool
  index_exists h = elim (failure h) [ some e ↦ false | none ↦ V.has_index h ]

  -- Whether the followers wait for an index.
  abbrev pub needs_index : Schema → Bool → Bool
  needs_index schema wait_indexes = wait_indexes && not (string_eq.beq schema.sentinel_index "")

  -- One poll of `WaitForSchema`, given the tables that are missing.
  unfoldable pub poll_index : Schema → Bool → History → List String → Bool × History
  unfolding index_exists
  poll_index schema wait_indexes h (t ∷ ts) = (false, h)
  poll_index schema wait_indexes h [] =
      if needs_index schema wait_indexes
      then (
        index_exists (query_index schema.sentinel_index ∷ h),
        query_index schema.sentinel_index ∷ h,
      )
      else (true, h)

  unfoldable pub poll : Schema → Bool → History → Bool × History
  unfolding poll_index check_missing_tables
  poll schema wait_indexes h =
      poll_index schema wait_indexes (list_tables schema.tracked_tables ∷ h)
        (check_missing_tables schema.tracked_tables (list_tables schema.tracked_tables ∷ h))

  -- `WaitForSchema`
  unfoldable pub wait_for_schema : Schema → Bool → List Bool → History → WaitOutcome × History
  unfolding poll
  wait_for_schema schema wait_indexes [] h = (polling, h)
  wait_for_schema schema wait_indexes (stop ∷ stops) h =
      let (seen, h') = poll schema wait_indexes h in
      let later = wait_for_schema schema wait_indexes stops h' in
      if stop then (cancelled, h) else if seen then (ready, h') else later

  -- `MigrateWithLock`, with the lock: what follows the indexes, and what follows the tables.
  unfoldable pub indexed : Option Error × History → Outcome × History
  indexed (some e, h) = (indexes_failed e, h)
  indexed (none, h) = (done, h)

  unfoldable pub tabled : Schema → Bool → Option Error × History → Outcome × History
  unfolding create_indexes indexed
  tabled schema with_indexes (some e, h) = (tables_failed e, h)
  tabled schema with_indexes (none, h) =
      if with_indexes then indexed (create_indexes schema h) else (done, h)

  unfoldable pub lead : Schema → Bool → History → Outcome × History
  unfolding tabled create_tables
  lead schema with_indexes h = tabled schema with_indexes (create_tables schema h)

  abbrev pub waited : WaitOutcome → Outcome
  waited ready = done
  waited cancelled = wait_cancelled
  waited polling = still_waiting

  unfoldable pub follow : Schema → Bool → List Bool → History → Outcome × History
  unfolding wait_for_schema
  follow schema with_indexes stops h =
      let (w, h') = wait_for_schema schema with_indexes stops h in (waited w, h')

  -- A deferred call.
  abbrev pub deferring : Call → Outcome × History → Outcome × History
  deferring c (o, h) = (o, c ∷ h)

  -- `MigrateWithLock`; `with_indexes` is CREATE_INDEXES.
  unfoldable pub migrate_with_lock : Schema → Bool → List Bool → History → Outcome × History
  unfolding lead follow
  migrate_with_lock schema with_indexes stops h = elim (failure (acquire ∷ h)) [
    | some e ↦ (no_connection e, acquire ∷ h)
    | none ↦ deferring release (elim (failure (try_lock ∷ acquire ∷ h)) [
      | some e ↦ (lock_failed e, try_lock ∷ acquire ∷ h)
      | none ↦
          if grants (try_lock ∷ acquire ∷ h)
          then deferring unlock (lead schema with_indexes (try_lock ∷ acquire ∷ h))
          else follow schema with_indexes stops (try_lock ∷ acquire ∷ h)
    ])
  ]

-- ===== src/Db/Tests.antt =====
-- A replica that leads and one that follows.
use pgstorm.Prelude.{
  ℕ, true, false, Option, none, some, ◌≡◌, refl, [], ◌∷◌, length, ltb, ◌≤◌, ◌++◌, replicate, arith,
  if◌then◌else◌, string_eq,
}
use pgstorm.Db.{
  Schema, acquire, release, try_lock, unlock, exec, list_tables, query_index, History, Server,
  Outcome, done, tables_failed, wait_for_schema, ready, migrate_with_lock,
}
use pgstorm.Db.Migration.{Leads, statements, migrate_with_lock-Leads}
use pgstorm.Db.Arrival.{Shows, migrate_with_lock-done}
use pgstorm.Db.Readiness.{Seen, wait_for_schema-Seen}

abbrev schema : Schema
schema = record {
  tables = "create a" ∷ "create b" ∷ [];
  indexes = "index a" ∷ [];
  tracked_tables = "a" ∷ "b" ∷ [];
  sentinel_index = "a_idx";
}

-- Its errors are numbers; the statement "create b" fails; table b appears with the fifth call.
abbrev failure_of : History → Option ℕ
failure_of (exec ddl ∷ h) = if string_eq.beq ddl "create b" then some 42 else none
failure_of h = none

abbrev server : Server
server = record {
  Error = ℕ;
  failure = failure_of;
  grants = λ h. true;
  found = λ h. if ltb (length h) 2 then "a" ∷ [] else "b" ∷ "a" ∷ [];
  has_index = λ h. true;
}

leads : migrate_with_lock server schema true [] [] ≡ (
  tables_failed 42,
  release ∷ unlock ∷ exec "create b" ∷ exec "create a" ∷ try_lock ∷ acquire ∷ [],
)
unfolding migrate_with_lock
leads = refl

migrate_with_lock-Leads_example :
    (o : Outcome server) × (h : History) × (migrate_with_lock server schema true [] []
      ≡ (o, release ∷ unlock ∷ h))
    × Leads server (statements schema true) (try_lock ∷ acquire ∷ []) o h
migrate_with_lock-Leads_example = migrate_with_lock-Leads server schema true [] [] refl refl refl

-- The first poll misses table b.
waits : wait_for_schema server schema true (false ∷ false ∷ []) [] ≡ (
  ready,
  query_index "a_idx" ∷ list_tables ("a" ∷ "b" ∷ []) ∷ list_tables ("a" ∷ "b" ∷ []) ∷ [],
)
unfolding wait_for_schema
waits = refl

wait_for_schema-Seen_example :
    Seen server schema true
      (query_index "a_idx" ∷ list_tables ("a" ∷ "b" ∷ []) ∷ list_tables ("a" ∷ "b" ∷ []) ∷ [])
wait_for_schema-Seen_example =
    wait_for_schema-Seen server schema true (false ∷ false ∷ []) [] _ waits

-- Another replica holds the lock.
abbrev locked : Server
locked = record server { grants = λ h. false }

five-Shows : (h : History) → 5 ≤ length h → Shows locked schema true h
five-Shows h n = record {
  listed = refl;
  there = ground arith;
  asked = λ e. refl;
  exists = λ e. refl;
}

migrate_with_lock-done_example :
    (h : History) × (migrate_with_lock locked schema true (replicate 6 false ++ (true ∷ [])) []
      ≡ (done, release ∷ h))
migrate_with_lock-done_example =
    migrate_with_lock-done locked schema true 5 five-Shows (true ∷ []) [] refl refl refl

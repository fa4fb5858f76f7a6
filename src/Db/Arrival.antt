-- ===== src/Db/Arrival.antt =====
-- A replica without the lock stops waiting once the server shows the schema.
use pgstorm.Prelude.{
  ℕ, zero, suc, ◌+◌, ◌≤◌, ◌<◌, Bool, true, false, String, string_eq, none, ◌≡◌, refl, List, [], ◌∷◌,
  ◌++◌, All, length, replicate, Bool-cases, inl, inr, arith,
}
use pgstorm.Db.{
  Schema, acquire, release, try_lock, list_tables, query_index, History, Server, done, contains,
  missing, ready, check_missing_tables, index_exists, needs_index, poll_index, poll,
  wait_for_schema, follow, migrate_with_lock,
}

missing_nothing :
    (required found : List String)
    → All (λ t. contains t found ≡ true) required
    → missing required found ≡ []
unfolding missing
missing_nothing [] found all = refl
missing_nothing (t ∷ required) found all = rw (all.0) (missing_nothing required found all.1)

module _ (V : Server) (schema : Schema) (with_indexes : Bool) where
  open V use {failure, grants, found, has_index}

  -- A poll made after these calls is answered without an error, and names every tracked table and,
  -- if it is waited for, the index.
  pub record Shows (h : History) : Type 0 where
    pub listed : failure (list_tables schema.tracked_tables ∷ h) ≡ none
    pub there :
        All
          (λ t. contains t (found (list_tables schema.tracked_tables ∷ h)) ≡ true)
          schema.tracked_tables
    pub asked :
        needs_index V schema with_indexes ≡ true
        → failure (query_index schema.sentinel_index ∷ list_tables schema.tracked_tables ∷ h) ≡ none
    pub exists :
        needs_index V schema with_indexes ≡ true
        → has_index (query_index schema.sentinel_index ∷ list_tables schema.tracked_tables ∷ h)
          ≡ true

  poll_index-true :
      (h : History)
      → Shows h
      → (poll_index V schema with_indexes (list_tables schema.tracked_tables ∷ h) []).0 ≡ true
  unfolding poll_index index_exists
  poll_index-true h s = elim (Bool-cases (needs_index V schema with_indexes)) [
    | inl e ↦ rw (e, index_exists, s.asked e) (s.exists e)
    | inr e ↦ rw e refl
  ]

  -- Such a poll sees the schema.
  pub poll-true : (h : History) → Shows h → (poll V schema with_indexes h).0 ≡ true
  unfolding poll check_missing_tables
  poll-true h s =
      rw (check_missing_tables, s.listed, missing_nothing schema.tracked_tables _ s.there)
        (poll_index-true h s)

  poll_index-grows :
      (h : History) (ts : List String) → length h ≤ length (poll_index V schema with_indexes h ts).1
  unfolding poll_index
  poll_index-grows h (t ∷ ts) = omega arith
  poll_index-grows h [] = elim (Bool-cases (needs_index V schema with_indexes)) [
    | inl e ↦ rw e (omega arith)
    | inr e ↦ rw e (omega arith)
  ]

  poll-grows : (h : History) → length h < length (poll V schema with_indexes h).1
  unfolding poll
  poll-grows h = omega (
    arith,
    poll_index-grows (list_tables schema.tracked_tables ∷ h)
        (check_missing_tables V schema.tracked_tables (list_tables schema.tracked_tables ∷ h)),
  )

  module _ (n : ℕ) (settled : (h : History) → n ≤ length h → Shows h) where
    pub wait_for_schema-ready :
        (k : ℕ) (rest : List Bool) (h : History)
        → n ≤ length h + k
        → (h' : History) × (wait_for_schema V schema with_indexes
              (replicate (suc k) false ++ rest)
              h
            ≡ (ready, h'))
    unfolding wait_for_schema
    wait_for_schema-ready zero rest h enough =
        ((poll V schema with_indexes h).1, rw (poll-true h (settled h (omega arith))) refl)
    wait_for_schema-ready (suc k) rest h enough =
        let g = (poll V schema with_indexes h).1 in
        let (h', e) = wait_for_schema-ready k rest g (omega (arith, poll-grows h)) in
        elim (Bool-cases (poll V schema with_indexes h).0) [
          | inl seen ↦ (g, rw seen refl)
          | inr unseen ↦ (h', rw unseen e)
        ]

    -- A replica that gets a connection and not the lock, with a server that from some number of calls
    -- on answers every poll, names every tracked table and says that an index that is waited for
    -- exists: when its context is not done before, it returns without an error, after one poll more
    -- than that number at most, and releases its connection.
    pub migrate_with_lock-done :
        (rest : List Bool) (h : History)
        → failure (acquire ∷ h) ≡ none
        → failure (try_lock ∷ acquire ∷ h) ≡ none
        → grants (try_lock ∷ acquire ∷ h) ≡ false
        → (h' : History) × (migrate_with_lock V schema with_indexes
              (replicate (suc n) false ++ rest)
              h
            ≡ (done, release ∷ h'))
    unfolding migrate_with_lock follow
    migrate_with_lock-done rest h connected answered refused =
        let (h', e) = wait_for_schema-ready n rest (try_lock ∷ acquire ∷ h) (omega arith) in
        (h', rw (migrate_with_lock, connected, answered, refused, e) refl)

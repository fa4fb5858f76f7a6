-- ===== src/Db/Readiness.antt =====
-- What a replica without the lock has seen when it stops waiting.
use pgstorm.Prelude.{
  Bool, true, false, String, string_eq, Option, none, some, ◌≡◌, refl, sym, subst, List, [], ◌∷◌,
  All, if◌then◌else◌,
}
use pgstorm.Db.{
  Schema, list_tables, query_index, History, Server, contains, missing, WaitOutcome, ready,
  cancelled, polling, check_missing_tables, index_exists, needs_index, poll_index, poll,
  wait_for_schema,
}

cons-ne-[] : {A : Type 0} (P : Type 0) {x : A} {xs : List A} → ◌≡◌ {A = List A} (x ∷ xs) [] → P
cons-ne-[] P h = cc

missing_none :
    (required found : List String)
    → missing required found ≡ []
    → All (λ t. contains t found ≡ true) required
unfolding missing
missing_none [] found e = tt
missing_none (t ∷ required) found e = split (contains t found) refl (missing_none required found) e
  where
    split :
        (b : Bool)
        → contains t found ≡ b
        → (missing required found ≡ [] → All (λ u. contains u found ≡ true) required)
        → (if b then missing required found else t ∷ missing required found) ≡ []
        → (contains t found ≡ true) × All (λ u. contains u found ≡ true) required
    split true c rest e = (c, rest e)
    split false c rest e = cons-ne-[] _ e

module _ (V : Server) (schema : Schema) (with_indexes : Bool) where
  open V use {Error, failure, grants, found, has_index}

  -- A history that ends with a poll that saw every tracked table and, where one is awaited, the
  -- index.
  pub data Seen : History → Type 0 where
    tables_seen :
        (h : History)
        → needs_index V schema with_indexes ≡ false
        → All
            (λ t. contains t (found (list_tables schema.tracked_tables ∷ h)) ≡ true)
            schema.tracked_tables
        → Seen (list_tables schema.tracked_tables ∷ h)
    index_seen :
        (h : History)
        → All
            (λ t. contains t (found (list_tables schema.tracked_tables ∷ h)) ≡ true)
            schema.tracked_tables
        → has_index (query_index schema.sentinel_index ∷ list_tables schema.tracked_tables ∷ h)
          ≡ true
        → Seen (query_index schema.sentinel_index ∷ list_tables schema.tracked_tables ∷ h)

  abbrev SeenIf : Bool × History → Type 0
  SeenIf (true, h) = Seen h
  SeenIf (false, h) = Unit

  abbrev ReadyIf : WaitOutcome × History → Type 0
  ReadyIf (ready, h) = Seen h
  ReadyIf (cancelled, h) = Unit
  ReadyIf (polling, h) = Unit

  -- The index, once no table is missing.
  poll_index-SeenIf :
      (h : History) (m : List String)
      → (m ≡ []
          → All
              (λ t. contains t (found (list_tables schema.tracked_tables ∷ h)) ≡ true)
              schema.tracked_tables)
      → SeenIf (poll_index V schema with_indexes (list_tables schema.tracked_tables ∷ h) m)
  unfolding poll_index index_exists
  poll_index-SeenIf h (t ∷ ts) all = tt
  poll_index-SeenIf h [] all = needed (needs_index V schema with_indexes) refl
    where
      q : History
      q = query_index schema.sentinel_index ∷ list_tables schema.tracked_tables ∷ h

      answered :
          (o : Option Error) (b : Bool)
          → has_index q ≡ b
          → SeenIf (elim o [ some e ↦ false | none ↦ b ], q)
      answered none true e = index_seen h (all refl) e
      answered none false e = tt
      answered (some x) b e = tt

      needed :
          (b : Bool)
          → needs_index V schema with_indexes ≡ b
          → SeenIf
              (if b then (index_exists V q, q) else (true, list_tables schema.tracked_tables ∷ h))
      needed true e = answered (failure q) (has_index q) refl
      needed false e = tables_seen h e (all refl)

  check_missing_tables-none :
      (h : History)
      → check_missing_tables V schema.tracked_tables h ≡ []
      → All (λ t. contains t (found h) ≡ true) schema.tracked_tables
  unfolding check_missing_tables
  check_missing_tables-none h = answered (failure h)
    where
      answered :
          (o : Option Error)
          → (elim o [
            | some e ↦ schema.tracked_tables
            | none ↦ missing schema.tracked_tables (found h)
          ])
            ≡ []
          → All (λ t. contains t (found h) ≡ true) schema.tracked_tables
      answered none e = missing_none schema.tracked_tables (found h) e
      answered (some x) e = subst (All (λ t. contains t (found h) ≡ true)) (sym e) tt

  poll-SeenIf : (h : History) → SeenIf (poll V schema with_indexes h)
  unfolding poll
  poll-SeenIf h =
      poll_index-SeenIf h _ (check_missing_tables-none (list_tables schema.tracked_tables ∷ h))

  -- A turn of the loop.
  turn-ReadyIf :
      (stop : Bool) (h : History) (p : Bool × History) (later : WaitOutcome × History)
      → SeenIf p
      → ReadyIf later
      → ReadyIf (if stop then (cancelled, h) else if p.0 then (ready, p.1) else later)
  turn-ReadyIf true h p later seen r = tt
  turn-ReadyIf false h (true, h') later seen r = seen
  turn-ReadyIf false h (false, h') later seen r = r

  wait_for_schema-ReadyIf :
      (stops : List Bool) (h : History) → ReadyIf (wait_for_schema V schema with_indexes stops h)
  unfolding wait_for_schema
  wait_for_schema-ReadyIf [] h = tt
  wait_for_schema-ReadyIf (stop ∷ stops) h =
      turn-ReadyIf stop h (poll V schema with_indexes h) _ (poll-SeenIf h)
        (wait_for_schema-ReadyIf stops (poll V schema with_indexes h).1)

  -- A wait that ends with readiness ends with a poll at which the server named every tracked table
  -- and, when there is an index to wait for, said that it exists.
  pub wait_for_schema-Seen :
      (stops : List Bool) (h h' : History)
      → wait_for_schema V schema with_indexes stops h ≡ (ready, h')
      → Seen h'
  wait_for_schema-Seen stops h h' e = subst ReadyIf e (wait_for_schema-ReadyIf stops h)

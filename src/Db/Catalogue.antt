-- ===== src/Db/Catalogue.antt =====
-- What a leader that is done has executed, and what the server's catalogue says of it.
use pgstorm.Prelude.{
  string_eq, ℕ, Bool, true, false, ◌&&◌, String, codes, Option, none, some, ◌≡◌, ◌⊎◌, refl, ap,
  subst, List, [], ◌∷◌, ◌++◌, All, All-map, Option-cases, Bool-cases, inl, inr, ◌==◌,
}
use pgstorm.Db.{
  Schema, Call, acquire, release, try_lock, unlock, exec, list_tables, query_index, History, Server,
  done, contains, exec_all, create_tables, create_indexes, indexed, tabled, lead, migrate_with_lock,
  ready, poll, wait_for_schema,
}
use pgstorm.Db.Arrival.{Shows, poll-true}

abbrev has_prefix : List ℕ → List ℕ → Bool
has_prefix [] s = true
has_prefix (c ∷ p) [] = false
has_prefix (c ∷ p) (d ∷ s) = (c == d) && has_prefix p s

-- What PostgreSQL reads in a statement, as the schemas write them.
abbrev pub creates_table : String → String → Bool
creates_table t ddl =
    has_prefix (codes "CREATE TABLE IF NOT EXISTS " ++ (codes t ++ codes " (")) (codes ddl)

abbrev pub creates_index : String → String → Bool
creates_index i ddl =
    has_prefix (codes "CREATE INDEX CONCURRENTLY IF NOT EXISTS " ++ (codes i ++ codes " "))
      (codes ddl)

-- Some statement of the list does.
abbrev pub SomeOf : (String → Bool) → List String → Type 0
SomeOf p [] = ⊥
SomeOf p (ddl ∷ ddls) = (p ddl ≡ true) ⊎ SomeOf p ddls

-- A schema creates all the tables that it tracks, and the index that followers wait for.
pub record IsConsistent (schema : Schema) : Type 0 where
  pub tracked : All (λ t. SomeOf (creates_table t) schema.tables) schema.tracked_tables
  pub sentinel : SomeOf (creates_index schema.sentinel_index) schema.indexes

contains-cons :
    (t u : String) (ts : List String) → contains t ts ≡ true → contains t (u ∷ ts) ≡ true
contains-cons t u ts e = elim (Bool-cases (string_eq.beq u t)) [
  | inl same ↦ rw same refl
  | inr other ↦ rw other e
]

-- A list contains each of its names.
All-contains : (ts : List String) → All (λ t. contains t ts ≡ true) ts
All-contains [] = tt
All-contains (t ∷ ts) = (
  rw ((string_eq.beq_iff t t).1 refl) refl,
  All-map (λ u e. contains-cons u t ts e) ts (All-contains ts),
)

module _ (V : Server) where
  open V use {Error, failure, grants, found, has_index}

  -- The statement was executed without an error, at some time.
  abbrev pub Succeeded : String → History → Type 0
  Succeeded ddl [] = ⊥
  Succeeded ddl (c ∷ h) = ((c ≡ exec ddl) × (failure (exec ddl ∷ h) ≡ none)) ⊎ Succeeded ddl h

  -- The catalogue names every table and index whose creation has succeeded; nothing is dropped.
  pub record IsCatalogue : Type 0 where
    pub tables :
        (h : History) (ddl t : String) (ts : List String)
        → Succeeded ddl h
        → creates_table t ddl ≡ true
        → contains t ts ≡ true
        → contains t (found (list_tables ts ∷ h)) ≡ true
    pub indexes :
        (h : History) (ddl i : String)
        → Succeeded ddl h
        → creates_index i ddl ≡ true
        → has_index (query_index i ∷ h) ≡ true

  -- All of them have succeeded, if there was no error.
  abbrev AllIf : List String → Option Error × History → Type 0
  AllIf ddls (none, h) = All (λ ddl. Succeeded ddl h) ddls
  AllIf ddls (some e, h) = Unit

  abbrev Grows : History → Option Error × History → Type 0
  Grows h p = (ddl : String) → Succeeded ddl h → Succeeded ddl p.1

  exec_all-Grows : (ddls : List String) (h : History) → Grows h (exec_all V ddls h)
  unfolding exec_all
  exec_all-Grows [] h ddl s = s
  exec_all-Grows (d ∷ ds) h ddl s = elim (Option-cases (failure (exec d ∷ h))) [
    | inl e ↦ rw (exec_all, e) (exec_all-Grows ds (exec d ∷ h) ddl (inr s))
    | inr (x, e) ↦ rw (exec_all, e) (inr s)
  ]

  exec_all-AllIf : (ddls : List String) (h : History) → AllIf ddls (exec_all V ddls h)
  unfolding exec_all
  exec_all-AllIf [] h = tt
  exec_all-AllIf (d ∷ ds) h = elim (Option-cases (failure (exec d ∷ h))) [
    | inl e ↦
        rw (exec_all, e)
          (both (exec_all V ds (exec d ∷ h)) (exec_all-AllIf ds (exec d ∷ h))
            (exec_all-Grows ds (exec d ∷ h) d (inl (refl, e))))
    | inr (x, e) ↦ rw (exec_all, e) tt
  ]
    where
      both : (p : Option Error × History) → AllIf ds p → Succeeded d p.1 → AllIf (d ∷ ds) p
      both (none, g) a s = (s, a)
      both (some x, g) a s = tt

  module _ (schema : Schema) where
    -- The statements of the schema have succeeded.
    abbrev Made : Bool → History → Type 0
    Made true h =
        All (λ ddl. Succeeded ddl h) schema.tables × All (λ ddl. Succeeded ddl h) schema.indexes
    Made false h = All (λ ddl. Succeeded ddl h) schema.tables

    indexed-Made :
        (p : Option Error × History)
        → All (λ ddl. Succeeded ddl p.1) schema.tables
        → AllIf schema.indexes p
        → (indexed V p).0 ≡ done
        → Made true (indexed V p).1
    unfolding indexed
    indexed-Made (none, h) a b e = (a, b)
    indexed-Made (some x, h) a b e = cc

    tabled-Made :
        (w : Bool) (p : Option Error × History)
        → AllIf schema.tables p
        → (tabled V schema w p).0 ≡ done
        → Made w (tabled V schema w p).1
    unfolding tabled create_indexes
    tabled-Made w (some x, h) a e = cc
    tabled-Made false (none, h) a e = a
    tabled-Made true (none, h) a e =
        indexed-Made (exec_all V schema.indexes h)
          (All-map (exec_all-Grows schema.indexes h) schema.tables a)
          (exec_all-AllIf schema.indexes h) e

    lead-Made :
        (w : Bool) (h : History) → (lead V schema w h).0 ≡ done → Made w (lead V schema w h).1
    unfolding lead create_tables
    lead-Made w h e = tabled-Made w (exec_all V schema.tables h) (exec_all-AllIf schema.tables h) e

    Succeeded-later :
        (later h : History) (ddl : String) → Succeeded ddl h → Succeeded ddl (later ++ h)
    Succeeded-later [] h ddl s = s
    Succeeded-later (c ∷ later) h ddl s = inr (Succeeded-later later h ddl s)

    module _ (catalogue : IsCatalogue) (consistent : IsConsistent schema) (h : History)
        (tables : All (λ ddl. Succeeded ddl h) schema.tables) where
      named :
          (t : String) (ddls : List String)
          → All (λ ddl. Succeeded ddl h) ddls
          → SomeOf (creates_table t) ddls
          → contains t schema.tracked_tables ≡ true
          → contains t (found (list_tables schema.tracked_tables ∷ h)) ≡ true
      named t [] a s c = elim s [ ]
      named t (ddl ∷ ddls) a (inl e) c = catalogue.tables h ddl t schema.tracked_tables a.0 e c
      named t (ddl ∷ ddls) a (inr s) c = named t ddls a.1 s c

      all_named :
          (ts : List String)
          → All (λ t. SomeOf (creates_table t) schema.tables) ts
          → All (λ t. contains t schema.tracked_tables ≡ true) ts
          → All (λ t. contains t (found (list_tables schema.tracked_tables ∷ h)) ≡ true) ts
      all_named [] a c = tt
      all_named (t ∷ ts) a c = (named t schema.tables tables a.0 c.0, all_named ts a.1 c.1)

      index_named :
          (ddls : List String) (g : History)
          → All (λ ddl. Succeeded ddl g) ddls
          → SomeOf (creates_index schema.sentinel_index) ddls
          → has_index (query_index schema.sentinel_index ∷ g) ≡ true
      index_named [] g a s = elim s [ ]
      index_named (ddl ∷ ddls) g a (inl e) = catalogue.indexes g ddl schema.sentinel_index a.0 e
      index_named (ddl ∷ ddls) g a (inr s) = index_named ddls g a.1 s

    -- With the statements executed, a poll that is answered sees the schema.
    Made-Shows :
        (w : Bool) (h : History)
        → IsCatalogue
        → IsConsistent schema
        → Made w h
        → failure (list_tables schema.tracked_tables ∷ h) ≡ none
        → failure (query_index schema.sentinel_index ∷ list_tables schema.tracked_tables ∷ h) ≡ none
        → Shows V schema w h
    Made-Shows true h k c m listed asked = record {
      listed = listed;
      there =
          all_named k c h m.0 schema.tracked_tables c.tracked (All-contains schema.tracked_tables);
      asked = λ e. asked;
      exists = λ e.
          index_named k c h m.0 schema.indexes (list_tables schema.tracked_tables ∷ h)
            (All-map (λ ddl s. inr s) schema.indexes m.1) c.sentinel;
    }
    Made-Shows false h k c m listed asked = record {
      listed = listed;
      there =
          all_named k c h m schema.tracked_tables c.tracked (All-contains schema.tracked_tables);
      asked = λ e. asked;
      exists = λ e. cc;
    }

    Made-later : (w : Bool) (later h : History) → Made w h → Made w (later ++ h)
    Made-later true later h m = (
      All-map (Succeeded-later later h) schema.tables m.0,
      All-map (Succeeded-later later h) schema.indexes m.1,
    )
    Made-later false later h m = All-map (Succeeded-later later h) schema.tables m

    leader-led :
        (w : Bool) (stops : List Bool) (h h' : History)
        → failure (acquire ∷ h) ≡ none
        → failure (try_lock ∷ acquire ∷ h) ≡ none
        → grants (try_lock ∷ acquire ∷ h) ≡ true
        → migrate_with_lock V schema w stops h ≡ (done, h')
        → ((lead V schema w (try_lock ∷ acquire ∷ h)).0 ≡ done)
          × ((release ∷ unlock ∷ (lead V schema w (try_lock ∷ acquire ∷ h)).1) ≡ h')
    unfolding migrate_with_lock
    leader-led w stops h h' connected answered granted finished =
        let e = rw (migrate_with_lock, connected, answered, granted) at finished in
        (ap (λ p. p.0) e, ap (λ p. p.1) e)

    -- On a server whose catalogue names what was created: once a replica with the lock is done with
    -- the schema, a replica that waits is ready at its next poll that is answered, whatever was
    -- called in between.
    pub follower-ready :
        (w : Bool) (stops rest : List Bool) (h h' : History) (later : List Call)
        → IsCatalogue
        → IsConsistent schema
        → failure (acquire ∷ h) ≡ none
        → failure (try_lock ∷ acquire ∷ h) ≡ none
        → grants (try_lock ∷ acquire ∷ h) ≡ true
        → migrate_with_lock V schema w stops h ≡ (done, h')
        → failure (list_tables schema.tracked_tables ∷ (later ++ h')) ≡ none
        → failure
            (query_index schema.sentinel_index ∷ list_tables schema.tracked_tables ∷ (later ++ h'))
          ≡ none
        → (g : History) × (wait_for_schema V schema w (false ∷ rest) (later ++ h') ≡ (ready, g))
    unfolding wait_for_schema
    follower-ready w stops rest h h' later k c connected answered granted finished listed asked =
        let started : History = try_lock ∷ acquire ∷ h in
        let led : ((lead V schema w started).0 ≡ done)
            × ((release ∷ unlock ∷ (lead V schema w started).1) ≡ h') =
          leader-led w stops h h' connected answered granted finished in
        let made = lead-Made w started led.0 in
        let made' : Made w h' =
          subst (Made w) led.1 (Made-later w (release ∷ unlock ∷ []) _ made) in
        let seen =
          poll-true V schema w (later ++ h')
            (Made-Shows w (later ++ h') k c (Made-later w later h' made') listed asked) in
        ((poll V schema w (later ++ h')).1, rw seen refl)

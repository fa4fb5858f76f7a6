-- ===== src/Db/Migration.antt =====
-- What the replica with the lock executes.
use pgstorm.Prelude.{
  Bool, true, false, String, Option, none, some, ◌≡◌, refl, sym, subst, ap, ◌∙◌, List, [], ◌∷◌,
  ◌++◌, ◌⊎◌, inl, inr, if◌then◌else◌,
}
use pgstorm.Db.{
  Schema, acquire, release, try_lock, unlock, exec, History, Server, Outcome, done, tables_failed,
  indexes_failed, exec_all, create_tables, create_indexes, indexed, tabled, lead, migrate_with_lock,
}

-- A history after so many statements more, the first of them the oldest.
abbrev pub executed : List String → History → History
executed [] h = h
executed (ddl ∷ ddls) h = executed ddls (exec ddl ∷ h)

-- The statements of a schema that a leader must execute.
abbrev pub statements : Schema → Bool → List String
statements schema with_indexes = schema.tables ++ (if with_indexes then schema.indexes else [])

executed-append :
    (xs ys : List String) (h : History) → executed (xs ++ ys) h ≡ executed ys (executed xs h)
executed-append [] ys h = refl
executed-append (x ∷ xs) ys h = executed-append xs ys (exec x ∷ h)

append_assoc : (xs ys zs : List String) → (xs ++ ys) ++ zs ≡ xs ++ (ys ++ zs)
append_assoc [] ys zs = refl
append_assoc (x ∷ xs) ys zs = cc (append_assoc xs ys zs)

module _ (V : Server) where
  open V use {Error, failure, grants}

  -- None of these statements fails, executed after one another from `h` on.
  abbrev pub Succeed : List String → History → Type 0
  Succeed [] h = Unit
  Succeed (ddl ∷ ddls) h = (failure (exec ddl ∷ h) ≡ none) × Succeed ddls (exec ddl ∷ h)

  Succeed-append :
      (xs ys : List String) (h : History)
      → Succeed xs h
      → Succeed ys (executed xs h)
      → Succeed (xs ++ ys) h
  Succeed-append [] ys h a b = b
  Succeed-append (x ∷ xs) ys h a b = (a.0, Succeed-append xs ys (exec x ∷ h) a.1 b)

  -- From `h`, all of `ddls` were executed without an error, or a prefix of them whose last, and only
  -- the last, failed.
  pub data Ran (ddls : List String) (h : History) : Option Error → History → Type 0 where
    completed : Succeed ddls h → Ran ddls h none (executed ddls h)
    stopped :
        (before : List String) (ddl : String) (after : List String) (e : Error)
        → ddls ≡ before ++ (ddl ∷ after)
        → Succeed before h
        → failure (executed (before ++ (ddl ∷ [])) h) ≡ some e
        → Ran ddls h (some e) (executed (before ++ (ddl ∷ [])) h)

  Ran-cons :
      (ddl : String) (ddls : List String) (h h' : History) (o : Option Error)
      → failure (exec ddl ∷ h) ≡ none
      → Ran ddls (exec ddl ∷ h) o h'
      → Ran (ddl ∷ ddls) h o h'
  Ran-cons ddl ddls h _ _ well (completed all) = completed (well, all)
  Ran-cons ddl ddls h _ _ well (stopped before last after e split fine f) =
      stopped (ddl ∷ before) last after e (ap (λ l. ddl ∷ l) split) (well, fine) f

  -- One statement and, if it did not fail, the others.
  Ran-step :
      (ddl : String) (ddls : List String) (h : History) (rest : Option Error × History)
      (o : Option Error)
      → Ran ddls (exec ddl ∷ h) rest.0 rest.1
      → failure (exec ddl ∷ h) ≡ o
      → let r : Option Error × History = elim o [ some e ↦ (some e, exec ddl ∷ h) | none ↦ rest ] in
        Ran (ddl ∷ ddls) h r.0 r.1
  Ran-step ddl ddls h rest none ran e = Ran-cons ddl ddls h rest.1 rest.0 e ran
  Ran-step ddl ddls h rest (some x) ran e = stopped [] ddl ddls x refl tt e

  exec_all-Ran :
      (ddls : List String) (h : History) → Ran ddls h (exec_all V ddls h).0 (exec_all V ddls h).1
  unfolding exec_all
  exec_all-Ran [] h = completed tt
  exec_all-Ran (ddl ∷ ddls) h =
      Ran-step ddl ddls h (exec_all V ddls (exec ddl ∷ h)) (failure (exec ddl ∷ h))
        (exec_all-Ran ddls (exec ddl ∷ h)) refl

  -- What a leader leaves: all statements of the schema executed without an error, or a prefix of
  -- them whose last, and only the last, failed with the error that the outcome carries.
  pub data Leads (all : List String) (h : History) : Outcome V → History → Type 0 where
    finished : Succeed all h → Leads all h done (executed all h)
    failed :
        (o : Outcome V) (before : List String) (ddl : String) (after : List String) (e : Error)
        → all ≡ before ++ (ddl ∷ after)
        → Succeed before h
        → failure (executed (before ++ (ddl ∷ [])) h) ≡ some e
        → (o ≡ tables_failed e) ⊎ (o ≡ indexes_failed e)
        → Leads all h o (executed (before ++ (ddl ∷ [])) h)

  -- The indexes, after the tables.
  indexed-Leads :
      (tables indexes : List String) (h h' : History) (o : Option Error)
      → Succeed tables h
      → Ran indexes (executed tables h) o h'
      → Leads (tables ++ indexes) h (indexed V (o, h')).0 (indexed V (o, h')).1
  unfolding indexed
  indexed-Leads tables indexes h _ _ made (completed all) =
      subst (Leads (tables ++ indexes) h done) (executed-append tables indexes h)
        (finished (Succeed-append tables indexes h made all))
  indexed-Leads tables indexes h _ _ made (stopped before ddl after e split fine f) =
      let same : executed ((tables ++ before) ++ (ddl ∷ [])) h
          ≡ executed (before ++ (ddl ∷ [])) (executed tables h) =
        ap (λ l. executed l h) (append_assoc tables before (ddl ∷ []))
        ∙ executed-append tables (before ++ (ddl ∷ [])) h in
      subst (Leads (tables ++ indexes) h (indexes_failed e)) same (
        failed (indexes_failed e) (tables ++ before) ddl after e
          (ap (λ l. tables ++ l) split ∙ sym (append_assoc tables before (ddl ∷ after)))
          (Succeed-append tables before h made fine) (ap failure same ∙ f) (inr refl))

  tabled-Leads :
      (schema : Schema) (with_indexes : Bool) (h h' : History) (o : Option Error)
      → Ran schema.tables h o h'
      → Leads
          (statements schema with_indexes)
          h
          (tabled V schema with_indexes (o, h')).0
          (tabled V schema with_indexes (o, h')).1
  unfolding tabled create_indexes
  tabled-Leads schema true h _ _ (completed made) =
      indexed-Leads schema.tables schema.indexes h
        (exec_all V schema.indexes (executed schema.tables h)).1
        (exec_all V schema.indexes (executed schema.tables h)).0 made
        (exec_all-Ran schema.indexes (executed schema.tables h))
  tabled-Leads schema false h _ _ (completed made) =
      subst (Leads (schema.tables ++ []) h done) (executed-append schema.tables [] h)
        (finished (Succeed-append schema.tables [] h made tt))
  tabled-Leads schema w h _ _ (stopped before ddl after e split fine f) =
      failed (tables_failed e) before ddl (after ++ (if w then schema.indexes else [])) e
        (ap (λ l. l ++ (if w then schema.indexes else [])) split
          ∙ append_assoc before (ddl ∷ after) (if w then schema.indexes else []))
        fine f (inl refl)

  -- A replica that gets a connection and the lock executes the statements of the schema in order,
  -- the tables' and, with CREATE_INDEXES, the indexes': all of them without an error, or a prefix
  -- whose last statement, and no other, failed with the error returned. Whichever it is, the unlock and the
  -- release of the connection follow, in this order.
  pub migrate_with_lock-Leads :
      (schema : Schema) (with_indexes : Bool) (stops : List Bool) (h : History)
      → failure (acquire ∷ h) ≡ none
      → failure (try_lock ∷ acquire ∷ h) ≡ none
      → grants (try_lock ∷ acquire ∷ h) ≡ true
      → (o : Outcome V) × (h' : History) × (migrate_with_lock V schema with_indexes stops h
          ≡ (o, release ∷ unlock ∷ h'))
        × Leads (statements schema with_indexes) (try_lock ∷ acquire ∷ h) o h'
  unfolding migrate_with_lock lead create_tables
  migrate_with_lock-Leads schema w stops h connected answered granted =
      let g : History = try_lock ∷ acquire ∷ h in
      (
        (lead V schema w g).0,
        (lead V schema w g).1,
        rw (migrate_with_lock, connected, answered, granted) refl,
        tabled-Leads schema w g (exec_all V schema.tables g).1 (exec_all V schema.tables g).0
            (exec_all-Ran schema.tables g),
      )

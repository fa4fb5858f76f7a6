-- ===== src/Workload/Ops/Session.antt =====
-- The calls that an operation makes, as a whole: with or without a transaction.
use pgstorm.Prelude.{
  ℕ, ◌+◌, Option, none, some, ◌≡◌, refl, sym, ap, subst, ◌∙◌, List, [], ◌∷◌, ◌++◌, All, Result, err,
}
use pgstorm.Workload.Ring.{SessionRing}
use pgstorm.Workload.Ops.{
  Call, begin, commit, rollback, Driver, Error, database, OltpExecutor, Op, continue, ask, must,
  failed_with, rolled_back, in_tx,
}
use pgstorm.Workload.Ops.Outcome.{
  Outcome, Outcome-continue, IsPlain, All-append, append_assoc, Plain,
}

-- What an operation must satisfy of its result and of the ring before and after.
abbrev pub RingRule : Driver → Type 1
RingRule D = Result (Error D) (Unit {0}) → SessionRing ℕ → SessionRing ℕ → Type 0

module _ {D : Driver} where
  -- The calls of a transaction's body, the newest first, when the body returns `r`: plain ones, and
  -- at most one commit, the last; without a commit the body has failed.
  pub data TxBody (r : Result (Error D) (Unit {0})) : List Call → Type 0 where
    open_ended : (x : Error D) → r ≡ err x → {made : List Call} → All IsPlain made → TxBody r made
    committing : {made : List Call} → All IsPlain made → TxBody r (commit ∷ made)

  -- The calls of an operation that returns `r`: no transaction, one that could not begin, or one
  -- that ends with a rollback.
  pub data Session (r : Result (Error D) (Unit {0})) : List Call → Type 0 where
    outside : {made : List Call} → All IsPlain made → Session r made
    not_begun :
        (x : Error D)
        → r ≡ err x
        → {before : List Call} → All IsPlain before
        → Session r (begin ∷ before)
    transaction :
        (made before : List Call)
        → TxBody r made
        → All IsPlain before
        → Session r (rollback ∷ (made ++ (begin ∷ before)))

  pub record Tx (Q : RingRule D) (r : Result (Error D) (Unit {0})) (s t : OltpExecutor D)
      : Type 0 where
    pub made : List Call
    pub logged : t.log ≡ made ++ s.log
    pub body : TxBody r made
    pub rule : Q r s.ring t.ring

  pub record Executed (Q : RingRule D) (r : Result (Error D) (Unit {0})) (s t : OltpExecutor D)
      : Type 0 where
    pub made : List Call
    pub logged : t.log ≡ made ++ s.log
    pub session : Session r made
    pub rule : Q r s.ring t.ring

  -- What a call changes, however it is answered.
  pub record Asked (c : Call) (s t : OltpExecutor D) : Type 0 where
    pub same_ring : t.ring ≡ s.ring
    pub logged : t.log ≡ c ∷ s.log

  pub must-Asked :
      (wrap : D.DbError → Error D) (c : Call) (s : OltpExecutor D)
      → Outcome (λ r t. Asked c s t) (must wrap c s)
  unfolding must ask continue
  must-Asked wrap c s = answered (s.answers s.calls)
    where
      answered :
          (o : Option D.DbError)
          → Outcome
              (λ r t. Asked c s t)
              (failed_with wrap o (record s { calls = s.calls + 1; log = c ∷ s.log }))
      answered none = record { same_ring = refl; logged = refl }
      answered (some x) = record { same_ring = refl; logged = refl }

  -- The calls before an operation's last part join those of that part.
  Session-after :
      {r : Result (Error D) (Unit {0})} {made : List Call} (before : List Call)
      → Session r made
      → All IsPlain before
      → Session r (made ++ before)
  Session-after b (outside {made} p) q = outside (All-append IsPlain made b p q)
  Session-after b (not_begun x e {before} p) q = not_begun x e (All-append IsPlain before b p q)
  Session-after {r = r} b (transaction made before body p) q =
      subst (λ l. Session r (rollback ∷ l)) (sym (append_assoc made (begin ∷ before) b))
        (transaction made (before ++ b) body (All-append IsPlain before b p q))

  module _ (Q : RingRule D) (fails : (x : Error D) (a : SessionRing ℕ) → Q (err x) a a) where
    Plain-err : (x : Error D) (s t : OltpExecutor D) → Plain s t → Executed Q (err x) s t
    Plain-err x s t p = record {
      made = p.made;
      logged = p.logged;
      session = outside p.all_plain;
      rule = subst (λ a. Q (err x) s.ring a) (sym p.same_ring) (fails x s.ring);
    }

    Executed-after :
        (r : Result (Error D) (Unit {0})) (s t u : OltpExecutor D)
        → Plain s t
        → Executed Q r t u
        → Executed Q r s u
    Executed-after r s t u p e = record {
      made = e.made ++ p.made;
      logged = e.logged ∙ ap (λ l. e.made ++ l) p.logged ∙ sym (append_assoc e.made p.made s.log);
      session = Session-after p.made e.session p.all_plain;
      rule = subst (λ a. Q r a u.ring) p.same_ring e.rule;
    }

    pub continue-Executed :
        {A : Type 0} (next : A → Op D (Unit {0})) (s : OltpExecutor D)
        (o : Option (Result (Error D) A × OltpExecutor D))
        → Outcome (λ r t. Plain s t) o
        → ((a : A) (t : OltpExecutor D) → Outcome (λ r u. Executed Q r t u) (next a t))
        → Outcome (λ r t. Executed Q r s t) (continue next o)
    continue-Executed next s o p q =
        Outcome-continue (λ r t. Plain s t) (λ r t. Executed Q r s t) next o p
          (λ x t h. Plain-err x s t h) (λ a t h. onward t h (next a t) (q a t))
      where
        onward :
            (t : OltpExecutor D)
            → Plain s t
            → (o' : Option (Result (Error D) (Unit {0}) × OltpExecutor D))
            → Outcome (λ r u. Executed Q r t u) o'
            → Outcome (λ r u. Executed Q r s u) o'
        onward t h none k = tt
        onward t h (some (r, u)) k = Executed-after r s t u h k

    -- A transaction whose body keeps to the rule.
    pub in_tx-Executed :
        (body : Op D (Unit {0})) (s : OltpExecutor D)
        → ((t : OltpExecutor D) → Outcome (λ r u. Tx Q r t u) (body t))
        → Outcome (λ r t. Executed Q r s t) (in_tx body s)
    unfolding in_tx rolled_back
    in_tx-Executed body s keeps =
        Outcome-continue (λ r t. Asked begin s t) (λ r t. Executed Q r s t)
          (λ a t. rolled_back (body t)) (must database begin s) (must-Asked database begin s)
          (λ x t h. record {
            made = begin ∷ [];
            logged = h.logged;
            session = not_begun x refl tt;
            rule = subst (λ a. Q (err x) s.ring a) (sym h.same_ring) (fails x s.ring);
          })
          (λ a t h. ended t h (body t) (keeps t))
      where
        ended :
            (t : OltpExecutor D)
            → Asked begin s t
            → (o : Option (Result (Error D) (Unit {0}) × OltpExecutor D))
            → Outcome (λ r u. Tx Q r t u) o
            → Outcome (λ r u. Executed Q r s u) (rolled_back o)
        ended t h none k = tt
        ended t h (some (r, u)) k = record {
          made = rollback ∷ (k.made ++ (begin ∷ []));
          logged =
              ap (λ l. rollback ∷ l)
                (k.logged
                  ∙ ap (λ l. k.made ++ l) h.logged
                  ∙ sym (append_assoc k.made (begin ∷ []) s.log));
          session = transaction k.made [] k.body tt;
          rule = subst (λ a. Q r a u.ring) h.same_ring k.rule;
        }

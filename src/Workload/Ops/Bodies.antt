-- ===== src/Workload/Ops/Bodies.antt =====
-- The bodies of the transactions.
use pgstorm.Prelude.{
  ℕ, true, false, Option, none, some, ◌≡◌, refl, ap, subst, ◌∙◌, String, string_eq, ◌∷◌, Result, ok,
  err, ◌⊎◌, inl, inr, if◌then◌else◌,
}
use pgstorm.Workload.Payload.{Bytes}
use pgstorm.Workload.Ring.{SessionRing, push}
use pgstorm.Workload.Ops.{
  commit, insert_session, lock_session, update_session, Driver, Error, skipped, database,
  OltpExecutor, continue, ask, must, because, fail, pushed, push_session,
}
use pgstorm.Workload.Ops.Handlers.{insert_body, locked, update_body}
use pgstorm.Workload.Ops.Outcome.{Outcome, Outcome-continue, Plain, Plain-refl, IsPlainOp}
use pgstorm.Workload.Ops.Quiet.{
  continue-Plain, ask-Plain, must-Plain, insert_event_rows-Plain, audit-Plain,
}
use pgstorm.Workload.Ops.Session.{RingRule, open_ended, committing, Tx, Asked, must-Asked}

module _ {D : Driver} where
  abbrev pub Keeps : RingRule D
  Keeps r a b = b ≡ a

  -- An id is pushed exactly on success.
  abbrev pub Pushes : RingRule D
  Pushes r a b =
      ((id : ℕ) × (r ≡ ok tt) × (push a id ≡ some b)) ⊎ ((x : Error D) × (r ≡ err x) × (b ≡ a))

  pub Keeps-err : (x : Error D) (a : SessionRing ℕ) → Keeps (err x) a a
  Keeps-err x a = refl

  pub Pushes-err : (x : Error D) (a : SessionRing ℕ) → Pushes (err x) a a
  Pushes-err x a = inr (x, refl, refl)

  -- A plain part that failed, and a plain part followed by the commit.
  Tx-failed :
      (Q : RingRule D) (x : Error D) (s t : OltpExecutor D)
      → Plain s t
      → Q (err x) s.ring t.ring
      → Tx Q (err x) s t
  Tx-failed Q x s t p q = record {
    made = p.made;
    logged = p.logged;
    body = open_ended x refl p.all_plain;
    rule = q;
  }

  Tx-commit :
      (r : Result (Error D) (Unit {0})) (s t u : OltpExecutor D)
      → Plain s t
      → Asked commit t u
      → Tx Keeps r s u
  Tx-commit r s t u p a = record {
    made = commit ∷ p.made;
    logged = a.logged ∙ ap (λ l. commit ∷ l) p.logged;
    body = committing p.all_plain;
    rule = a.same_ring ∙ p.same_ring;
  }

  -- A plain part, then the commit.
  commit-Tx :
      (wrap : D.DbError → Error D) (s : OltpExecutor D)
      (o : Option (Result (Error D) (Unit {0}) × OltpExecutor D))
      → Outcome (λ r t. Plain s t) o
      → Outcome (λ r t. Tx Keeps r s t) (continue (λ a. must wrap commit) o)
  commit-Tx wrap s o p =
      Outcome-continue (λ r t. Plain s t) (λ r t. Tx Keeps r s t) (λ a. must wrap commit) o p
        (λ x t h. Tx-failed Keeps x s t h h.same_ring)
        (λ a t h. after t h (must wrap commit t) (must-Asked wrap commit t))
    where
      after :
          (t : OltpExecutor D)
          → Plain s t
          → (o' : Option (Result (Error D) (Unit {0}) × OltpExecutor D))
          → Outcome (λ r u. Asked commit t u) o'
          → Outcome (λ r u. Tx Keeps r s u) o'
      after t h none k = tt
      after t h (some (r, u)) k = Tx-commit r s t u h k

  push-Tx :
      (id : ℕ) (s t : OltpExecutor D)
      → Tx Keeps (ok tt) s t
      → Outcome (λ r u. Tx Pushes r s u) (push_session id t)
  unfolding push_session pushed
  push-Tx id s t h = after (push t.ring id) refl
    where
      after :
          (o : Option (SessionRing ℕ))
          → push t.ring id ≡ o
          → Outcome (λ r u. Tx Pushes r s u) (pushed t o)
      after none e = tt
      after (some b) e = record {
        made = h.made;
        logged = h.logged;
        body = h.body;
        rule = inl (id, refl, subst (λ a. push a id ≡ some b) h.rule e);
      }

  pub insert_body-Tx :
      (id user : ℕ) (region : String) (metadata : Bytes) (n : ℕ) (s : OltpExecutor D)
      → Outcome (λ r t. Tx Pushes r s t) (insert_body id user region metadata n s)
  unfolding insert_body
  insert_body-Tx id user region metadata n s =
      Outcome-continue (λ r t. Tx Keeps r s t) (λ r t. Tx Pushes r s t) (λ a. push_session id) _
        (commit-Tx (because "commit insert") s _ (
          continue-Plain _ s _
            (continue-Plain _ s _
              (must-Plain (because "insert session") (insert_session id user region metadata) tt s)
              (λ a. insert_event_rows-Plain id n))
            (λ a. audit-Plain "insert audit" "INSERT" id)))
        (λ x t h. record {
          made = h.made;
          logged = h.logged;
          body = h.body;
          rule = inr (x, refl, h.rule);
        })
        (λ a t h. push-Tx id s t h)

  locked-Plain : (o : Option D.DbError) → IsPlainOp {D = D} (locked o)
  locked-Plain none s = Plain-refl s
  locked-Plain (some x) s =
      elim (D.is_no_rows x)
        as (λ b.
          Outcome {A = Unit {0}} (λ r t. Plain s t)
            ((if b then fail skipped else fail (because "lock session" x)) s)) [
              | true ↦ Plain-refl s
              | false ↦ Plain-refl s
            ]

  pub update_body-Tx :
      (id : ℕ) (metadata : Bytes) (s : OltpExecutor D)
      → Outcome (λ r t. Tx Keeps r s t) (update_body id metadata s)
  unfolding update_body
  update_body-Tx id metadata s = commit-Tx database s _ (
      continue-Plain _ s _
        (continue-Plain _ s _
          (continue-Plain _ s (ask (lock_session id) s) (ask-Plain (lock_session id) tt s)
            locked-Plain)
          (λ a. must-Plain (because "update session") (update_session id metadata) tt))
        (λ a. audit-Plain "update audit" "UPDATE" id))

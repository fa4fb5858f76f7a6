-- ===== src/Workload/Ops/Contract.antt =====
-- What each operation does to the ring and to its transaction.
use pgstorm.Prelude.{
  ℕ, ◌+◌, Bool, true, false, Option, none, some, ◌≡◌, String, string_eq, Result, if◌then◌else◌,
}
use pgstorm.Workload.Rng.{intn, pick}
use pgstorm.Workload.Payload.{get_session_payload, pick_user}
use pgstorm.Workload.Ops.{
  Call, delete_events, read_simple, read_join, read_by_ip, regions, severities, Driver, Error,
  unknown_op, OltpExecutor, Op, continue, draw, new_uuid, must, because, fail, sample_session,
}
use pgstorm.Workload.Ops.Handlers.{
  do_insert, read_all, do_read_simple, do_read_join, update_body, do_update, do_delete, octet,
  do_read_by_ip, execute,
}
use pgstorm.Workload.Ops.Outcome.{Outcome, Outcome-some, IsPlain, Plain, Plain-refl}
use pgstorm.Workload.Ops.Quiet.{
  draw-Plain, new_uuid-Plain, must-Plain, sample_session-Plain, read_all-Plain,
}
use pgstorm.Workload.Ops.Session.{RingRule, Executed, continue-Executed, in_tx-Executed, outside}
use pgstorm.Workload.Ops.Bodies.{
  Keeps, Pushes, Keeps-err, Pushes-err, insert_body-Tx, update_body-Tx,
}

module _ {D : Driver} where
  abbrev IsExecuted : RingRule D → Op D (Unit {0}) → Type 0
  IsExecuted Q m = (s : OltpExecutor D) → Outcome (λ r t. Executed Q r s t) (m s)

  do_insert-Executed : IsExecuted Pushes do_insert
  unfolding do_insert
  do_insert-Executed s = go_on _ s (new_uuid s) (new_uuid-Plain s) (λ id t.
      go_on _ t (draw (pick_user t.pools) t) (draw-Plain (pick_user t.pools) t) (λ user u.
        go_on _ u (draw (pick regions) u) (draw-Plain (pick regions) u) (λ region v.
          go_on _ v (draw (get_session_payload t.pools) v)
            (draw-Plain (get_session_payload t.pools) v)
            (λ metadata w. go_on _ w (draw (intn 3) w) (draw-Plain (intn 3) w) (λ more. λ x.
              in_tx-Executed Pushes Pushes-err _ x
                (insert_body-Tx id user region metadata (1 + more)))))))
    where
      go_on :
          {A : Type 0} (next : A → Op D (Unit {0})) (s : OltpExecutor D)
          (o : Option (Result (Error D) A × OltpExecutor D))
          → Outcome (λ r t. Plain s t) o
          → ((a : A) (t : OltpExecutor D) → Outcome (λ r u. Executed Pushes r t u) (next a t))
          → Outcome (λ r t. Executed Pushes r s t) (continue next o)
      go_on = continue-Executed Pushes Pushes-err

  -- An operation that samples the ring first, and then keeps it.
  sampling-Executed :
      (next : ℕ → Op D (Unit {0}))
      → ((id : ℕ) → IsExecuted Keeps (next id))
      → (s : OltpExecutor D)
      → Outcome (λ r t. Executed Keeps r s t) (continue next (sample_session s))
  sampling-Executed next keeps s =
      continue-Executed Keeps Keeps-err next s (sample_session s) (sample_session-Plain s) keeps

  -- A plain computation.
  Plain-Executed :
      (s : OltpExecutor D) (o : Option (Result (Error D) (Unit {0}) × OltpExecutor D))
      → Outcome (λ r t. Plain s t) o
      → Outcome (λ r t. Executed Keeps r s t) o
  Plain-Executed s none p = tt
  Plain-Executed s (some (r, t)) p = record {
    made = p.made;
    logged = p.logged;
    session = outside p.all_plain;
    rule = p.same_ring;
  }

  read_all-Executed : (text : String) (c : Call) → IsPlain c → IsExecuted Keeps (read_all text c)
  read_all-Executed text c p s = Plain-Executed s (read_all text c s) (read_all-Plain text c p s)

  do_read_simple-Executed : IsExecuted Keeps do_read_simple
  unfolding do_read_simple
  do_read_simple-Executed =
      sampling-Executed _
        (λ id s. read_all-Executed "read simple" (read_simple s.read_payload id) tt s)

  do_read_join-Executed : IsExecuted Keeps do_read_join
  unfolding do_read_join
  do_read_join-Executed = sampling-Executed _ (λ id s.
      continue-Executed Keeps Keeps-err _ s (draw (pick severities) s)
        (draw-Plain (pick severities) s)
        (λ severity. read_all-Executed "read join" (read_join id severity) tt))

  do_update-Executed : IsExecuted Keeps do_update
  unfolding do_update
  do_update-Executed = sampling-Executed _ (λ id s.
      continue-Executed Keeps Keeps-err _ s (draw (get_session_payload s.pools) s)
        (draw-Plain (get_session_payload s.pools) s)
        (λ metadata t.
          in_tx-Executed Keeps Keeps-err (update_body id metadata) t (update_body-Tx id metadata)))

  do_delete-Executed : IsExecuted Keeps do_delete
  unfolding do_delete
  do_delete-Executed = sampling-Executed _ (λ id s.
      Plain-Executed s (must (because "delete events") (delete_events id s.delete_batch_size) s)
        (must-Plain (because "delete events") (delete_events id s.delete_batch_size) tt s))

  do_read_by_ip-Executed : IsExecuted Keeps do_read_by_ip
  unfolding do_read_by_ip
  do_read_by_ip-Executed =
      sampling-Executed _
        (λ id s. read_all-Executed "read by ip" (read_by_ip s.read_payload (octet id)) tt s)

  -- The rule of an operation: an insert pushes, the others keep the ring.
  abbrev pub RuleFor : Bool → RingRule D
  RuleFor true = Pushes
  RuleFor false = Keeps

  chosen-Executed :
      (b : Bool) (Q : RingRule D) (m n : Op D (Unit {0}))
      → IsExecuted Q m
      → IsExecuted Q n
      → IsExecuted Q (if b then m else n)
  chosen-Executed true Q m n p q = p
  chosen-Executed false Q m n p q = q

  chosen-RuleFor :
      (b : Bool) (m n : Op D (Unit {0}))
      → IsExecuted Pushes m
      → IsExecuted Keeps n
      → IsExecuted (RuleFor b) (if b then m else n)
  chosen-RuleFor true m n p q = p
  chosen-RuleFor false m n p q = q

  execute-IsExecuted : (op : String) → IsExecuted (RuleFor (string_eq.beq op "insert")) (execute op)
  unfolding execute
  execute-IsExecuted op = chosen-RuleFor (string_eq.beq op "insert") _ _ do_insert-Executed (
      chosen-Executed (string_eq.beq op "read_simple") Keeps _ _ do_read_simple-Executed (
        chosen-Executed (string_eq.beq op "read_join") Keeps _ _ do_read_join-Executed (
          chosen-Executed (string_eq.beq op "update") Keeps _ _ do_update-Executed (
            chosen-Executed (string_eq.beq op "delete") Keeps _ _ do_delete-Executed (
              chosen-Executed (string_eq.beq op "read_by_ip") Keeps _ _ do_read_by_ip-Executed
                (λ s. Plain-Executed s (fail (unknown_op op) s) (Plain-refl s)))))))

  -- An operation that returns, whatever the database answers, has made no call of a transaction,
  -- or one `Begin` that failed, or one transaction: begun, with at most one commit, asked last and
  -- only missing after an error, and ended by a rollback. It pushes an id on the ring exactly if
  -- it is an insert that succeeded, and leaves the ring as it was otherwise.
  pub execute-Executed :
      (op : String) (s t : OltpExecutor D) (r : Result (Error D) (Unit {0}))
      → execute op s ≡ some (r, t)
      → Executed (RuleFor (string_eq.beq op "insert")) r s t
  execute-Executed op s t r e =
      Outcome-some (λ r t. Executed (RuleFor (string_eq.beq op "insert")) r s t) e
        (execute-IsExecuted op s)

-- ===== src/Workload/Ops/Total.antt =====
-- The operations never panic on a state that the profile's set-up leaves.
use pgstorm.Prelude.{
  ℕ, zero, suc, ◌+◌, Bool, true, false, String, string_eq, Option, none, some, if◌then◌else◌, arith,
}
use pgstorm.Workload.Rng.{int63}
use pgstorm.Workload.Payload.{Bytes}
use pgstorm.Workload.Payload.Stocked.{
  Draws-intn, get_session_payload-Draws, get_event_payload-Draws, get_audit_diff-Draws,
  pick_user-Draws, pick_actor-Draws,
}
use pgstorm.Workload.Templates.Yields.{Yields-int63, Yields-pick}
use pgstorm.Workload.Ops.{
  Call, insert_audit, insert_session, insert_event, delete_events, read_simple, read_join,
  read_by_ip, update_session, lock_session, commit, rows_err, database, Driver, skipped, unknown_op,
  OltpExecutor, Op, fail, must, because, regions, severities, event_types,
}
use pgstorm.Workload.Ops.Steps.{
  Ready, Runs, Total, Runs-continue, Total-then, Total-draw, Total-new_uuid, Total-ask, Total-fail,
  Total-return, Total-must, Total-in_tx, Total-push_session, Total-sample_session,
}
use pgstorm.Workload.Ops.Handlers.{
  octet, insert_event_row, insert_event_rows, audit, insert_body, do_insert, read_all,
  do_read_simple, do_read_join, locked, update_body, do_update, do_delete, do_read_by_ip, execute,
}

module _ {D : Driver} where
  Total-audit : (text action : String) (id : ℕ) → Total {D = D} (audit text action id)
  unfolding audit
  Total-audit text action id s ready = Runs-continue (Total-new_uuid s ready) (λ audit_id t r.
      Runs-continue (Total-draw _ (pick_actor-Draws t.pools r.stocked) t r) (λ by. λ u r'.
        Runs-continue (Total-draw _ (get_audit_diff-Draws t.pools r.stocked) u r') (λ diff v q.
          Runs-continue (Total-draw int63 Yields-int63 v q) (λ checksum.
            Total-must (because text) (insert_audit audit_id id action by diff checksum)))))

  Total-insert_event_row : (id : ℕ) → Total {D = D} (insert_event_row id)
  unfolding insert_event_row
  Total-insert_event_row id s ready = Runs-continue (Total-new_uuid s ready) (λ event_id t r.
      Runs-continue (Total-draw _ (get_event_payload-Draws t.pools r.stocked) t r) (λ payload t1 r1.
        Runs-continue (Total-draw int63 Yields-int63 t1 r1) (λ trace_id t2 r2.
          Runs-continue (Total-draw _ (Yields-pick severities (omega arith)) t2 r2)
            (λ severity t3 r3.
              Runs-continue (Total-draw _ (Yields-pick event_types (omega arith)) t3 r3)
                (λ event_type t4 r4.
                  Runs-continue (Total-draw _ (Draws-intn 256 (omega arith)) t4 r4) (λ third t5 r5.
                    Runs-continue (Total-draw _ (Draws-intn 256 (omega arith)) t5 r5) (λ fourth.
                      Total-must (because "insert event") (
                        insert_event id (record {
                          event_id = event_id;
                          event_type = event_type;
                          payload = payload;
                          severity = severity;
                          trace_id = trace_id;
                          source_ip = (third, fourth);
                        })))))))))

  Total-insert_event_rows : (id n : ℕ) → Total {D = D} (insert_event_rows id n)
  unfolding insert_event_rows
  Total-insert_event_rows id zero = Total-return tt
  Total-insert_event_rows id (suc n) =
      Total-then (insert_event_row id) (insert_event_rows id n) (Total-insert_event_row id)
        (Total-insert_event_rows id n)

  Total-insert_body :
      (id user : ℕ) (region : String) (metadata : Bytes) (n : ℕ)
      → Total {D = D} (insert_body id user region metadata n)
  unfolding insert_body
  Total-insert_body id user region metadata n s ready =
      Runs-continue
        (Runs-continue
          (Runs-continue
            (Runs-continue
              (Total-must (because "insert session") (insert_session id user region metadata) s
                ready)
              (λ _. Total-insert_event_rows id n))
            (λ _. Total-audit "insert audit" "INSERT" id))
          (λ _. Total-must (because "commit insert") commit))
        (λ _. Total-push_session id)

  Total-do_insert : Total {D = D} do_insert
  unfolding do_insert
  Total-do_insert s ready = Runs-continue (Total-new_uuid s ready) (λ id t r.
      Runs-continue (Total-draw _ (pick_user-Draws t.pools r.stocked) t r) (λ user t1 r1.
        Runs-continue (Total-draw _ (Yields-pick regions (omega arith)) t1 r1) (λ region t2 r2.
          Runs-continue (Total-draw _ (get_session_payload-Draws t.pools r.stocked) t2 r2)
            (λ metadata t3 r3.
              Runs-continue (Total-draw _ (Draws-intn 3 (omega arith)) t3 r3) (λ more.
                Total-in_tx (insert_body id user region metadata (1 + more))
                  (Total-insert_body id user region metadata (1 + more)))))))

  Total-read_all : (text : String) (c : Call) → Total {D = D} (read_all text c)
  unfolding read_all
  Total-read_all text c =
      Total-then (must (because text) c) (must database rows_err) (Total-must (because text) c)
        (Total-must database rows_err)

  Total-do_read_simple : Total {D = D} do_read_simple
  unfolding do_read_simple
  Total-do_read_simple s ready =
      Runs-continue (Total-sample_session s ready)
        (λ id t r. Total-read_all "read simple" (read_simple t.read_payload id) t r)

  Total-do_read_join : Total {D = D} do_read_join
  unfolding do_read_join
  Total-do_read_join s ready = Runs-continue (Total-sample_session s ready) (λ id t r.
      Runs-continue (Total-draw _ (Yields-pick severities (omega arith)) t r)
        (λ severity. Total-read_all "read join" (read_join id severity)))

  Total-locked : (o : Option D.DbError) → Total {D = D} (locked o)
  Total-locked none = Total-return tt
  Total-locked (some x) = branch (D.is_no_rows x)
    where
      branch :
          (b : Bool)
          → Total {D = D} {A = Unit {0}}
              (if b then fail skipped else fail (because "lock session" x))
      branch true = Total-fail skipped
      branch false = Total-fail (because "lock session" x)

  Total-update_body : (id : ℕ) (metadata : Bytes) → Total {D = D} (update_body id metadata)
  unfolding update_body
  Total-update_body id metadata s ready =
      Runs-continue (Total-ask (lock_session id) s ready) (λ answer t r.
        Runs-continue
          (Runs-continue
            (Runs-continue (Total-locked answer t r)
              (λ _. Total-must (because "update session") (update_session id metadata)))
            (λ _. Total-audit "update audit" "UPDATE" id))
          (λ _. Total-must database commit))

  Total-do_update : Total {D = D} do_update
  unfolding do_update
  Total-do_update s ready = Runs-continue (Total-sample_session s ready) (λ id t r.
      Runs-continue (Total-draw _ (get_session_payload-Draws t.pools r.stocked) t r)
        (λ metadata. Total-in_tx (update_body id metadata) (Total-update_body id metadata)))

  Total-do_delete : Total {D = D} do_delete
  unfolding do_delete
  Total-do_delete s ready =
      Runs-continue (Total-sample_session s ready)
        (λ id t r. Total-must (because "delete events") (delete_events id t.delete_batch_size) t r)

  Total-do_read_by_ip : Total {D = D} do_read_by_ip
  unfolding do_read_by_ip
  Total-do_read_by_ip s ready =
      Runs-continue (Total-sample_session s ready)
        (λ id t r. Total-read_all "read by ip" (read_by_ip t.read_payload (octet id)) t r)

  Total-if :
      (b : Bool) (m n : Op D (Unit {0}))
      → Total {D = D} m
      → Total {D = D} n
      → Total {D = D} (if b then m else n)
  Total-if true m n t u = t
  Total-if false m n t u = u

  -- On a ring that holds a history and with full pools of templates and at least one user and one
  -- actor, however the database answers: every operation returns, with a result or an error and
  -- without a panic, and leaves the ring and the pools in such a state.
  pub execute-Runs : (op : String) (s : OltpExecutor D) → Ready s → Runs (execute op s)
  unfolding execute
  execute-Runs op = Total-if (string_eq.beq op "insert") do_insert _ Total-do_insert (
      Total-if (string_eq.beq op "read_simple") do_read_simple _ Total-do_read_simple (
        Total-if (string_eq.beq op "read_join") do_read_join _ Total-do_read_join (
          Total-if (string_eq.beq op "update") do_update _ Total-do_update (
            Total-if (string_eq.beq op "delete") do_delete _ Total-do_delete (
              Total-if (string_eq.beq op "read_by_ip") do_read_by_ip _ Total-do_read_by_ip
                (Total-fail (unknown_op op)))))))

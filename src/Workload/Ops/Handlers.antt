-- ===== src/Workload/Ops/Handlers.antt =====
-- workload/ops.go: `Execute` and the six operations.
use pgstorm.Prelude.{
  ℕ, suc, zero, ◌+◌, ◌/◌, ◌%◌, ◌^◌, String, string_eq, Option, none, some, if◌then◌else◌,
}
use pgstorm.Workload.Rng.{intn, int63, pick}
use pgstorm.Workload.Payload.{
  Bytes, get_session_payload, get_event_payload, get_audit_diff, pick_user, pick_actor,
}
use pgstorm.Workload.Ops.{
  Call, commit, insert_session, insert_event, insert_audit, lock_session, update_session,
  delete_events, read_simple, read_join, read_by_ip, rows_err, Driver, regions, severities,
  event_types, skipped, unknown_op, database, Op, continue, ◌>>=◌, ◌>>◌, fail, return, draw,
  new_uuid, ask, must, because, in_tx, sample_session, push_session,
}

-- The id's first byte, the third of the addresses' four.
unfoldable pub octet : ℕ → ℕ
octet id = id / 2 ^ 120 % 256

module _ {D : Driver} where
  open D use {DbError, is_no_rows}

  -- One turn of the loop over the events.
  unfoldable pub insert_event_row : ℕ → Op D (Unit {0})
  unfolding continue draw new_uuid must get_event_payload pick intn int63
  insert_event_row session_id = new_uuid >>= λ event_id. λ s.
      (draw (get_event_payload s.pools) >>= λ payload. draw int63 >>= λ trace_id.
      draw (pick severities) >>= λ severity. draw (pick event_types) >>= λ event_type.
      draw (intn 256) >>= λ third. draw (intn 256) >>= λ fourth. must (because "insert event") (
        insert_event session_id (record {
          event_id = event_id;
          event_type = event_type;
          payload = payload;
          severity = severity;
          trace_id = trace_id;
          source_ip = (third, fourth);
        })))
        s

  unfoldable pub insert_event_rows : ℕ → ℕ → Op D (Unit {0})
  unfolding continue insert_event_row
  insert_event_rows session_id zero = return tt
  insert_event_rows session_id (suc n) =
      insert_event_row session_id >> insert_event_rows session_id n

  -- The audit entry that the insert and the update end with.
  unfoldable pub audit : String → String → ℕ → Op D (Unit {0})
  unfolding continue draw new_uuid must get_audit_diff pick_actor int63
  audit text action session_id = new_uuid >>= λ audit_id. λ s.
      (draw (pick_actor s.pools) >>= λ changed_by. draw (get_audit_diff s.pools) >>= λ diff.
      draw int63 >>= λ checksum.
      must (because text) (insert_audit audit_id session_id action changed_by diff checksum))
        s

  unfoldable pub insert_body : ℕ → ℕ → String → Bytes → ℕ → Op D (Unit {0})
  unfolding continue must insert_event_rows audit push_session
  insert_body session_id user_id region metadata num_events =
      must (because "insert session") (insert_session session_id user_id region metadata)
      >> insert_event_rows session_id num_events
      >> audit "insert audit" "INSERT" session_id
      >> must (because "commit insert") commit
      >> push_session session_id

  -- `doInsert`
  unfoldable pub do_insert : Op D (Unit {0})
  unfolding continue draw new_uuid in_tx insert_body pick_user get_session_payload pick intn
  do_insert = new_uuid >>= λ session_id. λ s.
      (draw (pick_user s.pools) >>= λ user_id. draw (pick regions) >>= λ region.
      draw (get_session_payload s.pools) >>= λ metadata.
      draw (intn 3) >>= λ more. in_tx (insert_body session_id user_id region metadata (1 + more)))
        s

  -- A query read to its end, and the error of its rows.
  unfoldable pub read_all : String → Call → Op D (Unit {0})
  unfolding continue must
  read_all text c = must (because text) c >> must database rows_err

  -- `doReadSimple`
  unfoldable pub do_read_simple : Op D (Unit {0})
  unfolding continue sample_session read_all
  do_read_simple =
      sample_session >>= λ id. λ s. read_all "read simple" (read_simple s.read_payload id) s

  -- `doReadJoin`
  unfoldable pub do_read_join : Op D (Unit {0})
  unfolding continue sample_session draw pick read_all
  do_read_join = sample_session >>= λ id.
      draw (pick severities) >>= λ severity. read_all "read join" (read_join id severity)

  -- The answer of `SELECT … FOR UPDATE SKIP LOCKED`.
  abbrev pub locked : Option DbError → Op D (Unit {0})
  locked none = return tt
  locked (some x) = if is_no_rows x then fail skipped else fail (because "lock session" x)

  unfoldable pub update_body : ℕ → Bytes → Op D (Unit {0})
  unfolding continue ask must audit
  update_body session_id metadata = ask (lock_session session_id) >>= λ answer.
      locked answer
      >> must (because "update session") (update_session session_id metadata)
      >> audit "update audit" "UPDATE" session_id
      >> must database commit

  -- `doUpdate`
  unfoldable pub do_update : Op D (Unit {0})
  unfolding continue sample_session draw in_tx update_body get_session_payload
  do_update = sample_session >>= λ id.
      λ s. (draw (get_session_payload s.pools) >>= λ metadata. in_tx (update_body id metadata)) s

  -- `doDelete`
  unfoldable pub do_delete : Op D (Unit {0})
  unfolding continue sample_session must
  do_delete = sample_session >>= λ id.
      λ s. must (because "delete events") (delete_events id s.delete_batch_size) s

  -- `doReadByIP`
  unfoldable pub do_read_by_ip : Op D (Unit {0})
  unfolding continue sample_session read_all octet
  do_read_by_ip =
      sample_session >>= λ id. λ s. read_all "read by ip" (read_by_ip s.read_payload (octet id)) s

  -- `Execute`
  unfoldable pub execute : String → Op D (Unit {0})
  unfolding do_insert do_read_simple do_read_join do_update do_delete do_read_by_ip
  execute op =
      if string_eq.beq op "insert"
      then do_insert
      else if string_eq.beq op "read_simple"
      then do_read_simple
      else if string_eq.beq op "read_join"
      then do_read_join
      else if string_eq.beq op "update"
      then do_update
      else if string_eq.beq op "delete"
      then do_delete
      else if string_eq.beq op "read_by_ip"
      then do_read_by_ip
      else fail (unknown_op op)

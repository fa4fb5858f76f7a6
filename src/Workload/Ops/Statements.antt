-- ===== src/Workload/Ops/Statements.antt =====
-- workload/ops.go: the text of each statement, the arguments that it is called with, and what the
-- columns of its rows are scanned into.
pub mod Reading
pub mod Typed
use pgstorm.Prelude.{
  ℕ, Bool, true, false, String, string_eq, Option, none, some, List, [], ◌∷◌, if◌then◌else◌,
}
use pgstorm.Workload.Payload.{Bytes}
use pgstorm.Workload.Ops.{
  EventRow, Call, begin, commit, rollback, insert_session, insert_event, insert_audit, lock_session,
  update_session, delete_events, read_simple, read_join, read_by_ip, rows_err,
}

unfoldable pub read_simple_sql : String
read_simple_sql =
    "SELECT id, event_type, occurred_at, severity, trace_id\n\t\t FROM events\n\t\t WHERE session_id = $1\n\t\t ORDER BY occurred_at DESC\n\t\t LIMIT 20"

unfoldable pub read_simple_with_payload_sql : String
read_simple_with_payload_sql =
    "SELECT id, event_type, occurred_at, severity, trace_id, payload\n\t\t FROM events\n\t\t WHERE session_id = $1\n\t\t ORDER BY occurred_at DESC\n\t\t LIMIT 20"

unfoldable pub read_by_ip_sql : String
read_by_ip_sql =
    "SELECT id, session_id, event_type, occurred_at, severity, trace_id\n\t\t FROM events\n\t\t WHERE source_ip >= $1::inet AND source_ip <= $2::inet\n\t\t ORDER BY source_ip\n\t\t LIMIT 50"

unfoldable pub read_by_ip_with_payload_sql : String
read_by_ip_with_payload_sql =
    "SELECT id, session_id, event_type, occurred_at, severity, trace_id, payload\n\t\t FROM events\n\t\t WHERE source_ip >= $1::inet AND source_ip <= $2::inet\n\t\t ORDER BY source_ip\n\t\t LIMIT 50"

unfoldable pub insert_session_sql : String
insert_session_sql =
    "INSERT INTO sessions (id, user_id, started_at, region, metadata, status)\n\t\t VALUES ($1, $2, now(), $3, $4, 'active')"

unfoldable pub insert_event_sql : String
insert_event_sql =
    "INSERT INTO events (id, session_id, event_type, occurred_at, payload, severity, trace_id, source_ip)\n\t\t\t VALUES ($1, $2, $3, now(), $4, $5, $6, $7)"

unfoldable pub insert_audit_sql : String
insert_audit_sql =
    "INSERT INTO audit_log (id, entity_type, entity_id, action, changed_by, diff, checksum)\n\t\t VALUES ($1, 'session', $2, 'INSERT', $3, $4, $5)"

unfoldable pub update_audit_sql : String
update_audit_sql =
    "INSERT INTO audit_log (id, entity_type, entity_id, action, changed_by, diff, checksum)\n\t\t VALUES ($1, 'session', $2, 'UPDATE', $3, $4, $5)"

unfoldable pub read_join_sql : String
read_join_sql =
    "SELECT\n\t\t\ts.id, s.user_id, s.region, s.status,\n\t\t\te.id as event_id, e.event_type, e.severity, e.payload,\n\t\t\tal.action, al.changed_at\n\t\t FROM sessions s\n\t\t JOIN events e ON e.session_id = s.id\n\t\t LEFT JOIN audit_log al ON al.entity_id = s.id\n\t\t WHERE s.id = $1\n\t\t   AND e.severity = $2\n\t\t ORDER BY e.occurred_at DESC\n\t\t LIMIT 20"

unfoldable pub lock_session_sql : String
lock_session_sql = "SELECT id FROM sessions WHERE id = $1 FOR UPDATE SKIP LOCKED"

unfoldable pub update_session_sql : String
update_session_sql =
    "UPDATE sessions\n\t\t SET status = 'closed', ended_at = now(), metadata = $2\n\t\t WHERE id = $1"

unfoldable pub delete_events_sql : String
delete_events_sql =
    "DELETE FROM events\n\t\t WHERE id IN (\n\t\t\t SELECT id FROM events\n\t\t\t WHERE session_id = $1\n\t\t\t ORDER BY occurred_at ASC\n\t\t\t LIMIT $2\n\t\t )"

-- An argument, by the Go type it has: a text may be one of 16 hexadecimal digits or an address.
pub data Arg : Type 0 where
  uuid : ℕ → Arg
  text : String → Arg
  hex : ℕ → Arg
  json : Bytes → Arg
  address : ℕ → ℕ → Arg
  limit : ℕ → Arg

-- Where `Scan` puts a column.
pub data Dest : Type 0 where
  to_uuid : Dest
  to_string : Dest
  to_string_or_nil : Dest
  to_bytes : Dest
  to_any : Dest

-- The statement of a call, if it has one.
unfoldable pub sql_of : Call → Option String
unfolding read_simple_sql read_simple_with_payload_sql read_by_ip_sql read_by_ip_with_payload_sql
    insert_session_sql insert_event_sql insert_audit_sql update_audit_sql read_join_sql
    lock_session_sql update_session_sql delete_events_sql
sql_of begin = none
sql_of commit = none
sql_of rollback = none
sql_of rows_err = none
sql_of (insert_session id user_id region metadata) = some insert_session_sql
sql_of (insert_event session_id row) = some insert_event_sql
sql_of (insert_audit id session_id action changed_by diff checksum) =
    some (if string_eq.beq action "INSERT" then insert_audit_sql else update_audit_sql)
sql_of (lock_session id) = some lock_session_sql
sql_of (update_session id metadata) = some update_session_sql
sql_of (delete_events id n) = some delete_events_sql
sql_of (read_simple payload id) =
    some (if payload then read_simple_with_payload_sql else read_simple_sql)
sql_of (read_join id severity) = some read_join_sql
sql_of (read_by_ip payload octet) =
    some (if payload then read_by_ip_with_payload_sql else read_by_ip_sql)

-- The arguments, in the order in which they are passed.
unfoldable pub args_of : Call → List Arg
args_of begin = []
args_of commit = []
args_of rollback = []
args_of rows_err = []
args_of (insert_session id user_id region metadata) =
    uuid id ∷ uuid user_id ∷ text region ∷ json metadata ∷ []
args_of (insert_event session_id row) =
    uuid row.event_id
    ∷ uuid session_id
    ∷ text row.event_type
    ∷ json row.payload
    ∷ text row.severity
    ∷ hex row.trace_id
    ∷ address row.source_ip.0 row.source_ip.1
    ∷ []
args_of (insert_audit id session_id action changed_by diff checksum) =
    uuid id ∷ uuid session_id ∷ uuid changed_by ∷ json diff ∷ hex checksum ∷ []
args_of (lock_session id) = uuid id ∷ []
args_of (update_session id metadata) = uuid id ∷ json metadata ∷ []
args_of (delete_events id n) = uuid id ∷ limit n ∷ []
args_of (read_simple payload id) = uuid id ∷ []
args_of (read_join id severity) = uuid id ∷ text severity ∷ []
args_of (read_by_ip payload octet) = address octet 0 ∷ address octet 255 ∷ []

abbrev with_bytes : Bool → List Dest
with_bytes true = to_bytes ∷ []
with_bytes false = []

-- What a row is scanned into.
unfoldable pub dests_of : Call → List Dest
dests_of (lock_session id) = to_uuid ∷ []
dests_of (read_simple payload id) =
    to_uuid ∷ to_string ∷ to_any ∷ to_string ∷ to_string ∷ with_bytes payload
dests_of (read_join id severity) =
    to_uuid ∷ to_uuid ∷ to_string ∷ to_string ∷ to_string ∷ to_string ∷ to_string ∷ to_bytes
    ∷ to_string_or_nil ∷ to_any ∷ []
dests_of (read_by_ip payload octet) =
    to_uuid ∷ to_uuid ∷ to_string ∷ to_any ∷ to_string ∷ to_string ∷ with_bytes payload
dests_of c = []

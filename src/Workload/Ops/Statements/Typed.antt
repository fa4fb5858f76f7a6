-- ===== src/Workload/Ops/Statements/Typed.antt =====
-- The statements of the operations fit the schema of the `oltp-jsonb` profile.
use pgstorm.Prelude.{
  ℕ, suc, Bool, true, false, String, Option, none, some, ◌≡◌, refl, List, [], ◌∷◌, string_eq,
  Bool-cases, inl, inr,
}
use pgstorm.Workload.Profile.{oltp_schema}
use pgstorm.Workload.Ops.{
  Call, begin, commit, rollback, insert_session, insert_event, insert_audit, lock_session,
  update_session, delete_events, read_simple, read_join, read_by_ip, rows_err,
}
use pgstorm.Workload.Ops.Statements.{
  Arg, uuid, text, hex, json, address, limit, Dest, to_uuid, to_string, to_string_or_nil, to_bytes,
  to_any, sql_of, args_of, dests_of,
}
use pgstorm.Workload.Ops.Statements.Reading.{
  SqlType, uuid_type, text_type, jsonb_type, inet_type, time_type, count_type, Word, words,
  words_of, param_type, selected_types,
}

abbrev type_of_arg : Arg → SqlType
type_of_arg (uuid n) = uuid_type
type_of_arg (text s) = text_type
type_of_arg (hex n) = text_type
type_of_arg (json b) = jsonb_type
type_of_arg (address m n) = inet_type
type_of_arg (limit n) = count_type

-- Whether a column of that type can be scanned into it.
abbrev holds : SqlType → Dest → Bool
holds uuid_type to_uuid = true
holds uuid_type to_string = true
holds text_type to_string = true
holds text_type to_string_or_nil = true
holds jsonb_type to_bytes = true
holds time_type to_any = true
holds t d = false

-- From that number on, each argument has the type of its parameter, and there is no other parameter.
abbrev Bound : List Word → ℕ → List Arg → Type 0
Bound ws i [] = param_type oltp_schema.tables ws i ≡ none
Bound ws i (a ∷ args) =
    (param_type oltp_schema.tables ws i ≡ some (type_of_arg a)) × Bound ws (suc i) args

-- Each selected_types column is known, and has a place to be scanned into that can hold it.
abbrev Scanned : List (Option SqlType) → List Dest → Type 0
Scanned [] [] = Unit
Scanned (some t ∷ ts) (d ∷ ds) = (holds t d ≡ true) × Scanned ts ds
Scanned ts ds = ⊥

abbrev pub IsTyped : Option String → List Arg → List Dest → Type 0
IsTyped none args dests = (args ≡ []) × (dests ≡ [])
IsTyped (some sql) args dests =
    Bound (words_of sql) 1 args × Scanned (selected_types oltp_schema.tables (words_of sql)) dests

-- Every statement that the operations ask of the database fits the schema of the profile: its
-- parameters are numbered from 1 on, one for each argument that is passed; each argument has the type
-- of the column that its parameter is compared with or stored in, or is a limit; and the columns of a
-- row are as many as the places that it is scanned into, each able to hold its column. Other calls
-- have no arguments and no rows.
pub call-IsTyped : (c : Call) → IsTyped (sql_of c) (args_of c) (dests_of c)
unfolding sql_of args_of dests_of oltp_schema words param_type selected_types
call-IsTyped begin = (refl, refl)
call-IsTyped commit = (refl, refl)
call-IsTyped rollback = (refl, refl)
call-IsTyped rows_err = (refl, refl)
call-IsTyped (insert_session id user_id region metadata) =
    ((refl, (refl, (refl, (refl, refl)))), tt)
call-IsTyped (insert_event session_id row) =
    ((refl, (refl, (refl, (refl, (refl, (refl, (refl, refl))))))), tt)
call-IsTyped (insert_audit id session_id action changed_by diff checksum) =
    elim (Bool-cases (string_eq.beq action "INSERT")) [
      | inl e ↦ rw e ((refl, (refl, (refl, (refl, (refl, refl))))), tt)
      | inr e ↦ rw e ((refl, (refl, (refl, (refl, (refl, refl))))), tt)
    ]
call-IsTyped (lock_session id) = ((refl, refl), (refl, tt))
call-IsTyped (update_session id metadata) = ((refl, (refl, refl)), tt)
call-IsTyped (delete_events id n) = ((refl, (refl, refl)), tt)
call-IsTyped (read_simple true id) =
    ((refl, refl), (refl, (refl, (refl, (refl, (refl, (refl, tt)))))))
call-IsTyped (read_simple false id) = ((refl, refl), (refl, (refl, (refl, (refl, (refl, tt))))))
call-IsTyped (read_join id severity) = (
  (refl, (refl, refl)),
  (refl, (refl, (refl, (refl, (refl, (refl, (refl, (refl, (refl, (refl, tt)))))))))),
)
call-IsTyped (read_by_ip true octet) =
    ((refl, (refl, refl)), (refl, (refl, (refl, (refl, (refl, (refl, (refl, tt))))))))
call-IsTyped (read_by_ip false octet) =
    ((refl, (refl, refl)), (refl, (refl, (refl, (refl, (refl, (refl, tt)))))))

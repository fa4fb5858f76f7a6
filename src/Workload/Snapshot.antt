-- ===== src/Workload/Snapshot.antt =====
-- workload/result.go: what is measured of the database around a run, its size and its settings.
--
-- A query is its error, or its rows in order, each read or refused by `Scan`, and the error of the
-- rows at their end. An `int64` is its bit pattern.
pub mod Sizes
mod Tests
use pgstorm.Prelude.{
  ℕ, Bool, String, string_eq, Option, none, some, List, [], ◌∷◌, insert, add64, sub64,
  if◌then◌else◌, Result, ok, err, ◌>>=◌, joined,
}

pub record DatasetSize : Type 0 where
  pub total_bytes : ℕ
  pub live_tuples : ℕ
  pub table_bytes : List (String × ℕ)

pub record DatasetSnapshot : Type 0 where
  pub start : DatasetSize
  pub end : DatasetSize
  pub growth_bytes : ℕ

pub record ServerInfo : Type 0 where
  pub version : String
  pub settings : List (String × String)

abbrev pub no_size : DatasetSize
no_size = record { total_bytes = 0; live_tuples = 0; table_bytes = [] }

-- A row of `pg_stat_user_tables`, and one of `pg_settings`.
pub record SizeRow : Type 0 where
  pub name : String
  pub bytes : ℕ
  pub live : ℕ

pub record SettingRow : Type 0 where
  pub name : String
  pub setting : String
  pub unit : String

-- Where a measurement failed.
pub data SnapshotError (E : Type 0) : Type 0 where
  query_failed : E → SnapshotError E
  scan_failed : E → SnapshotError E
  read_failed : E → SnapshotError E

-- What a row adds.
unfoldable pub add_size : SizeRow → DatasetSize → DatasetSize
unfolding insert
add_size r out = record {
  total_bytes = add64 out.total_bytes r.bytes;
  live_tuples = add64 out.live_tuples r.live;
  table_bytes = insert r.name r.bytes out.table_bytes;
}

unfoldable pub add_setting : SettingRow → ServerInfo → ServerInfo
unfolding insert
add_setting r out =
    if string_eq.beq r.name "server_version"
    then record out { version = r.setting }
    else record out {
      settings =
          insert r.name
            (if string_eq.beq r.unit "" then r.setting else joined r.setting (joined " " r.unit))
            out.settings;
    }

module _ {E : Type 0} where
  -- The loop over the rows, from what has been gathered on.
  unfoldable pub gather :
      {R A : Type 0} → (R → A → A) → List (Result E R) → Option E → A → Result (SnapshotError E) A
  gather add [] none out = ok out
  gather add [] (some e) out = err (read_failed e)
  gather add (err e ∷ rows) rows_err out = err (scan_failed e)
  gather add (ok r ∷ rows) rows_err out = gather add rows rows_err (add r out)

  unfoldable pub queried :
      {R A : Type 0}
      → (R → A → A)
      → Result E (List (Result E R) × Option E)
      → A
      → Result (SnapshotError E) A
  unfolding gather
  queried add (err e) out = err (query_failed e)
  queried add (ok (rows, rows_err)) out = gather add rows rows_err out

  -- `SnapshotDataset`
  unfoldable pub snapshot_dataset :
      Result E (List (Result E SizeRow) × Option E) → Result (SnapshotError E) DatasetSize
  unfolding queried add_size
  snapshot_dataset answer = queried add_size answer no_size

  -- `SnapshotServerInfo`
  unfoldable pub snapshot_server_info :
      Result E (List (Result E SettingRow) × Option E) → Result (SnapshotError E) ServerInfo
  unfolding queried add_setting
  snapshot_server_info answer = queried add_setting answer (record { version = ""; settings = [] })

-- The snapshot that `main` makes of the sizes at both ends of a run.
unfoldable pub dataset_snapshot : DatasetSize → DatasetSize → DatasetSnapshot
dataset_snapshot start end = record {
  start = start;
  end = end;
  growth_bytes = sub64 end.total_bytes start.total_bytes;
}

-- ===== src/Workload/Snapshot/Tests.antt =====
-- Sizes and settings from concrete answers.
use pgstorm.Prelude.{
  ℕ, ◌%◌, String, string_eq, Option, none, ◌≡◌, refl, List, [], ◌∷◌, map, word, sum64, lookup,
  Result, ok, err,
}
use pgstorm.Workload.Snapshot.{
  DatasetSize, SizeRow, SettingRow, scan_failed, snapshot_dataset, snapshot_server_info,
}
use pgstorm.Workload.Snapshot.Sizes.{bytes_of, snapshot_dataset-sums}

abbrev row : String → ℕ → ℕ → Result ℕ SizeRow
row name bytes live = ok (record { name = name; bytes = bytes; live = live })

abbrev answer : Result ℕ (List (Result ℕ SizeRow) × Option ℕ)
answer = ok (row "events" 800 7 ∷ row "sessions" 200 5 ∷ [], none)

abbrev size : DatasetSize
size = record {
  total_bytes = 1000;
  live_tuples = 12;
  table_bytes = ("events", 800) ∷ ("sessions", 200) ∷ [];
}

measured : snapshot_dataset answer ≡ ok size
unfolding snapshot_dataset
measured = refl

unreadable : snapshot_dataset (ok (row "events" 800 7 ∷ err 3 ∷ [], none)) ≡ err (scan_failed 3)
unfolding snapshot_dataset
unreadable = refl

abbrev setting : String → String → String → Result ℕ SettingRow
setting name value unit = ok (record { name = name; setting = value; unit = unit })

settings :
    snapshot_server_info (
      ok (
        setting "server_version" "16.4" ""
            ∷ setting "shared_buffers" "16384" "8kB"
            ∷ setting "autovacuum" "on" ""
            ∷ [],
        none,
      ))
    ≡ ok (record {
      version = "16.4";
      settings = ("shared_buffers", "16384 8kB") ∷ ("autovacuum", "on") ∷ [];
    })
unfolding snapshot_server_info
settings = refl

snapshot_dataset-sums_example :
    (rs : List SizeRow) × (answer ≡ ok (map ok rs, none))
    × (1000 % word ≡ sum64 (map (λ r. r.bytes) rs) % word)
    × (12 % word ≡ sum64 (map (λ r. r.live) rs) % word)
    × ((t : String) → lookup t size.table_bytes ≡ bytes_of t rs none)
snapshot_dataset-sums_example = snapshot_dataset-sums answer size measured

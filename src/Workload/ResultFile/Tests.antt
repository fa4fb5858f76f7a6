-- ===== src/Workload/ResultFile/Tests.antt =====
-- A result that replaces an older one, and a rename that fails.
use pgstorm.Prelude.{ℕ, String, string_eq, ◌≡◌, ◌≢◌, refl, none, some, [], ◌∷◌}
use pgstorm.Workload.ResultFile.{FileSystem, Faults, write_run_result}
use pgstorm.Workload.ResultFile.Atomic.{Atomic, write_run_result-Atomic}

abbrev old : FileSystem
old = ("result.json", 1 ∷ []) ∷ []

abbrev no_faults : Faults ℕ
no_faults = record {
  marshal = none;
  make_directory = none;
  create_temp = none;
  write = none;
  written = [];
  close = none;
  rename = none;
}

replaces : (write_run_result "result.json" ".tmp" (7 ∷ 8 ∷ []) no_faults old).0 ≡ none
unfolding write_run_result
replaces = refl

-- The write leaves half the result behind, and the old one stays.
half_written :
    write_run_result "result.json" ".tmp"
      (7 ∷ 8 ∷ [])
      (record no_faults { write = some 28; written = 7 ∷ [] })
      old
    ≡ (
      some 28,
      (("result.json", 1 ∷ []) ∷ [])
          ∷ (("result.json", 1 ∷ []) ∷ (".tmp", 7 ∷ []) ∷ [])
          ∷ (("result.json", 1 ∷ []) ∷ (".tmp", []) ∷ [])
          ∷ (("result.json", 1 ∷ []) ∷ [])
          ∷ [],
    )
unfolding write_run_result
half_written = refl

names_differ : ◌≢◌ {A = String} ".tmp" "result.json"
names_differ = λ e. cc

write_run_result-Atomic_example :
    Atomic "result.json" ".tmp"
      (7 ∷ 8 ∷ [])
      no_faults
      old
      names_differ
      (write_run_result "result.json" ".tmp" (7 ∷ 8 ∷ []) no_faults old)
write_run_result-Atomic_example =
    write_run_result-Atomic "result.json" ".tmp" (7 ∷ 8 ∷ []) no_faults old names_differ

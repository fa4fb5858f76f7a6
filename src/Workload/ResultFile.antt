-- ===== src/Workload/ResultFile.antt =====
-- workload/result.go, `WriteRunResult`: the result is written to a temporary file, which is renamed
-- over the destination.
--
-- The file system is a dictionary from paths to contents; which steps fail is a parameter, and a
-- write that fails leaves any content. The function returns the states that a reader may see, the
-- newest first. The marshalled result, with its newline, is a parameter; directories have no
-- content, so making them changes nothing here.
pub mod Atomic
mod Tests
use pgstorm.Prelude.{
  ℕ, Bool, String, string_eq, Option, none, some, List, [], ◌∷◌, insert, if◌then◌else◌,
}

abbrev pub FileSystem : Type 0
FileSystem = List (String × List ℕ)

unfoldable pub remove : String → FileSystem → FileSystem
remove k [] = []
remove k ((j, v) ∷ m) = let rest = remove k m in if string_eq.beq j k then rest else (j, v) ∷ rest

-- The errors of the steps, and what a write leaves that fails.
pub record Faults (E : Type 0) : Type 0 where
  pub marshal : Option E
  pub make_directory : Option E
  pub create_temp : Option E
  pub write : Option E
  pub written : List ℕ
  pub close : Option E
  pub rename : Option E

abbrev pub Trace : Type 0 → Type 0
Trace E = Option E × List FileSystem

-- The deferred `os.Remove`, after the states `seen` and the last one.
unfoldable pub removing : {E : Type 0} → String → Option E → FileSystem → List FileSystem → Trace E
unfolding remove
removing tmp e fs seen = (e, remove tmp fs ∷ fs ∷ seen)

module _ {E : Type 0} (path tmp : String) (result : List ℕ) (f : Faults E) where
  unfoldable pub rename_step : FileSystem → List FileSystem → Trace E
  unfolding remove removing insert
  rename_step fs seen = elim f.rename [
    | some e ↦ removing tmp (some e) fs seen
    | none ↦ removing tmp none (insert path result (remove tmp fs)) (fs ∷ seen)
  ]

  unfoldable pub close_step : FileSystem → List FileSystem → Trace E
  unfolding rename_step removing
  close_step fs seen = elim f.close [
    | some e ↦ removing tmp (some e) fs seen
    | none ↦ rename_step fs seen
  ]

  unfoldable pub write_step : FileSystem → List FileSystem → Trace E
  unfolding close_step removing insert
  write_step fs seen = elim f.write [
    | some e ↦ removing tmp (some e) (insert tmp f.written fs) (fs ∷ seen)
    | none ↦ close_step (insert tmp result fs) (fs ∷ seen)
  ]

  -- `WriteRunResult`
  unfoldable pub write_run_result : FileSystem → Trace E
  unfolding write_step insert
  write_run_result fs = elim f.marshal [
    | some e ↦ (some e, fs ∷ [])
    | none ↦ elim f.make_directory [
      | some e ↦ (some e, fs ∷ [])
      | none ↦ elim f.create_temp [
        | some e ↦ (some e, fs ∷ [])
        | none ↦ write_step (insert tmp [] fs) (fs ∷ [])
      ]
    ]
  ]

-- ===== src/Workload/ResultFile/Atomic.antt =====
-- A reader never sees half a result.
use pgstorm.Prelude.{
  ℕ, String, string_eq, ◌≡◌, ◌≢◌, refl, ◌∙◌, Option, none, some, List, [], ◌∷◌, All, ◌⊎◌, inl, inr,
  lookup, insert, lookup-insert, arith,
}
use pgstorm.Workload.ResultFile.{
  FileSystem, remove, Faults, Trace, removing, rename_step, close_step, write_step,
  write_run_result,
}

lookup-remove_ne : (k j : String) (m : FileSystem) → k ≢ j → lookup j (remove k m) ≡ lookup j m
unfolding lookup remove
lookup-remove_ne k j [] ne = refl
lookup-remove_ne k j ((i, v) ∷ m) ne =
    ground (arith, string_eq.beq_iff i k, string_eq.beq_iff i j, lookup-remove_ne k j m ne)

lookup-insert_ne :
    (k j : String) (v : List ℕ) (m : FileSystem) → k ≢ j → lookup j (insert k v m) ≡ lookup j m
lookup-insert_ne k j v m ne = ground (arith, lookup-insert k j v m, string_eq.beq_iff k j)

lookup-insert_self : (k : String) (v : List ℕ) (m : FileSystem) → lookup k (insert k v m) ≡ some v
lookup-insert_self k v m = ground (arith, lookup-insert k k v m, string_eq.beq_iff k k)

module _ {E : Type 0} (path tmp : String) (result : List ℕ) (f : Faults E) (start : FileSystem)
    (ne : tmp ≢ path) where
  -- The destination holds what it held at the start, or the whole result.
  abbrev pub OldOrNew : FileSystem → Type 0
  OldOrNew fs = (lookup path fs ≡ lookup path start) ⊎ (lookup path fs ≡ some result)

  -- The destination at the end: the result on success, what it was otherwise.
  abbrev pub Final : Option E → FileSystem → Type 0
  Final none fs = lookup path fs ≡ some result
  Final (some e) fs = lookup path fs ≡ lookup path start

  abbrev pub Atomic : Trace E → Type 0
  Atomic (e, []) = ⊥
  Atomic (e, fs ∷ seen) = Final e fs × All OldOrNew (fs ∷ seen)

  Kept : FileSystem → Type 0
  Kept fs = lookup path fs ≡ lookup path start

  failed-Atomic :
      (e : E) (fs : FileSystem) (seen : List FileSystem)
      → Kept fs
      → All OldOrNew seen
      → Atomic (removing tmp (some e) fs seen)
  unfolding removing Kept
  failed-Atomic e fs seen kept all =
      let kept' = lookup-remove_ne tmp path fs ne ∙ kept in (kept', (inl kept', (inl kept, all)))

  rename_step-Atomic :
      (fs : FileSystem) (seen : List FileSystem)
      → Kept fs
      → All OldOrNew seen
      → Atomic (rename_step path tmp result f fs seen)
  unfolding rename_step removing Kept
  rename_step-Atomic fs seen kept all =
      elim f.rename
        as (λ o. Atomic (elim o [
          | some e ↦ removing tmp (some e) fs seen
          | none ↦ removing tmp none (insert path result (remove tmp fs)) (fs ∷ seen)
        ])) [
          | some e ↦ failed-Atomic e fs seen kept all
          | none ↦
              let new = lookup-insert_self path result (remove tmp fs) in
              let new' = lookup-remove_ne tmp path (insert path result (remove tmp fs)) ne ∙ new in
              (new', (inr new', (inr new, (inl kept, all))))
        ]

  close_step-Atomic :
      (fs : FileSystem) (seen : List FileSystem)
      → Kept fs
      → All OldOrNew seen
      → Atomic (close_step path tmp result f fs seen)
  unfolding close_step
  close_step-Atomic fs seen kept all =
      elim f.close
        as (λ o. Atomic (elim o [
          | some e ↦ removing tmp (some e) fs seen
          | none ↦ rename_step path tmp result f fs seen
        ])) [
          | some e ↦ failed-Atomic e fs seen kept all
          | none ↦ rename_step-Atomic fs seen kept all
        ]

  write_step-Atomic :
      (fs : FileSystem) (seen : List FileSystem)
      → Kept fs
      → All OldOrNew seen
      → Atomic (write_step path tmp result f fs seen)
  unfolding write_step Kept
  write_step-Atomic fs seen kept all =
      elim f.write
        as (λ o. Atomic (elim o [
          | some e ↦ removing tmp (some e) (insert tmp f.written fs) (fs ∷ seen)
          | none ↦ close_step path tmp result f (insert tmp result fs) (fs ∷ seen)
        ])) [
          | some e ↦
              failed-Atomic e (insert tmp f.written fs) (fs ∷ seen)
                (lookup-insert_ne tmp path f.written fs ne ∙ kept) (inl kept, all)
          | none ↦
              close_step-Atomic (insert tmp result fs) (fs ∷ seen)
                (lookup-insert_ne tmp path result fs ne ∙ kept) (inl kept, all)
        ]

  -- Whichever steps fail, with a temporary file that is not the destination: at every moment the
  -- destination holds what it held before, or the whole new result; it holds the new result when
  -- the function returns no error, and what it held before when it returns one.
  pub write_run_result-Atomic : Atomic (write_run_result path tmp result f start)
  unfolding write_run_result Kept
  write_run_result-Atomic =
      elim f.marshal
        as (λ o. Atomic (elim o [ some e ↦ (some e, start ∷ []) | none ↦ made f.make_directory ])) [
          | some e ↦ (refl, (inl refl, tt))
          | none ↦ made-Atomic f.make_directory
        ]
    where
      created : Option E → Trace E
      created o = elim o [
        | some e ↦ (some e, start ∷ [])
        | none ↦ write_step path tmp result f (insert tmp [] start) (start ∷ [])
      ]

      made : Option E → Trace E
      made o = elim o [ some e ↦ (some e, start ∷ []) | none ↦ created f.create_temp ]

      created-Atomic : (o : Option E) → Atomic (created o)
      created-Atomic (some e) = (refl, (inl refl, tt))
      created-Atomic none =
          write_step-Atomic (insert tmp [] start) (start ∷ [])
            (lookup-insert_ne tmp path [] start ne) (inl refl, tt)

      made-Atomic : (o : Option E) → Atomic (made o)
      made-Atomic (some e) = (refl, (inl refl, tt))
      made-Atomic none = created-Atomic f.create_temp

-- ===== src/Workload/Snapshot/Sizes.antt =====
-- What a measured size says of the rows that the server sent.
use pgstorm.Prelude.{
  ℕ, ◌+◌, ◌%◌, String, string_eq, Option, none, some, ◌≡◌, refl, sym, ap, ◌∙◌, List, [], ◌∷◌, map,
  word, sum64, lookup, lookup-insert, Result, ok, err, if◌then◌else◌, arith,
}
use pgstorm.Workload.Snapshot.{
  DatasetSize, no_size, SizeRow, gather, queried, add_size, snapshot_dataset,
}

-- What rows add to a size.
abbrev pub add_all : List SizeRow → DatasetSize → DatasetSize
add_all [] out = out
add_all (r ∷ rs) out = add_all rs (add_size r out)

add_all-sums :
    (rs : List SizeRow) (out : DatasetSize)
    → ((add_all rs out).total_bytes % word
        ≡ (out.total_bytes + sum64 (map (λ r. r.bytes) rs)) % word)
      × ((add_all rs out).live_tuples % word
          ≡ (out.live_tuples + sum64 (map (λ r. r.live) rs)) % word)
unfolding add_size
add_all-sums [] out = (omega arith, omega arith)
add_all-sums (r ∷ rs) out =
    let ih = add_all-sums rs (add_size r out) in (omega (arith, ih.0), omega (arith, ih.1))

abbrev pub bytes_of : String → List SizeRow → Option ℕ → Option ℕ
bytes_of t [] before = before
bytes_of t (r ∷ rs) before = bytes_of t rs (if string_eq.beq r.name t then some r.bytes else before)

-- The size of a table is the one that its last row gives.
lookup-add_all :
    (t : String) (rs : List SizeRow) (out : DatasetSize)
    → lookup t (add_all rs out).table_bytes ≡ bytes_of t rs (lookup t out.table_bytes)
unfolding add_size
lookup-add_all t [] out = refl
lookup-add_all t (r ∷ rs) out =
    lookup-add_all t rs (add_size r out)
    ∙ ap (bytes_of t rs) (lookup-insert r.name t r.bytes out.table_bytes)

gather-ok :
    {E : Type 0} (rows : List (Result E SizeRow)) (rows_err : Option E) (start out : DatasetSize)
    → gather add_size rows rows_err start ≡ ok out
    → (rs : List SizeRow) × (rows ≡ map ok rs) × (rows_err ≡ none) × (add_all rs start ≡ out)
unfolding gather
gather-ok [] none start out h = ([], refl, refl, cc)
gather-ok [] (some e) start out h = cc
gather-ok (err e ∷ rows) rows_err start out h = cc
gather-ok (ok r ∷ rows) rows_err start out h =
    let (rs, all, fine, total) = gather-ok rows rows_err (add_size r start) out h in
    (r ∷ rs, ap (λ l. ok r ∷ l) all, fine, total)

-- A size that comes back without an error is that of an answer all of whose rows were read: its
-- bytes and its tuples are the sums over these rows (modulo 2^64), and each table has the size of
-- its last row.
pub snapshot_dataset-sums :
    {E : Type 0} (answer : Result E (List (Result E SizeRow) × Option E)) (out : DatasetSize)
    → snapshot_dataset answer ≡ ok out
    → (rs : List SizeRow) × (answer ≡ ok (map ok rs, none))
      × (out.total_bytes % word ≡ sum64 (map (λ r. r.bytes) rs) % word)
      × (out.live_tuples % word ≡ sum64 (map (λ r. r.live) rs) % word)
      × ((t : String) → lookup t out.table_bytes ≡ bytes_of t rs none)
unfolding snapshot_dataset queried lookup
snapshot_dataset-sums (err e) out h = cc
snapshot_dataset-sums {E} (ok (rows, rows_err)) out h =
    let (rs, all, fine, total) = gather-ok rows rows_err no_size out h in
    let sums = add_all-sums rs no_size in
    (
      rs,
      ap {B = Result E (List (Result E SizeRow) × Option E)} (λ l. ok (l, rows_err)) all
          ∙ ap (λ o. ok (map ok rs, o)) fine,
      ap (λ o. o.total_bytes % word) (sym total) ∙ omega (arith, sums.0),
      ap (λ o. o.live_tuples % word) (sym total) ∙ omega (arith, sums.1),
      λ t. ap (λ o. lookup t o.table_bytes) (sym total) ∙ lookup-add_all t rs no_size,
    )

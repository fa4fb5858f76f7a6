-- ===== src/Metrics/IndexStats/Growth.antt =====
-- How much a counter of index scans grows over a run.
use Prim.Native.Nat.{◌-◌}
use pgstorm.Prelude.{
  ℕ, ◌+◌, Bool, true, false, String, string_eq, ◌≡◌, refl, ap, subst, ◌∙◌, Option, none, some, List,
  [], ◌∷◌, ◌++◌, lookup, lookup-insert, if◌then◌else◌, Result, ok, err, arith,
}
use pgstorm.Metrics.IndexStats.{
  new_tracker, delta_from, delta, Metric, index_size_bytes, index_scans_total, Publish, set, add,
  IndexRow, Published, add_if_positive, follow, publish_index, publish_rows, Answer, collect,
  collect_index_stats, run_index_stats_loop,
}

-- The sum of the increases of a sequence of values, from the value last seen on; a decrease, after
-- a reset of the server's statistics, adds nothing.
abbrev pub growth : Option ℕ → List ℕ → ℕ
growth prev [] = 0
growth none (v ∷ vs) = growth (some v) vs
growth (some p) (v ∷ vs) = (v - p) + growth (some v) vs

abbrev pub last_seen : Option ℕ → List ℕ → Option ℕ
last_seen prev [] = prev
last_seen prev (v ∷ vs) = last_seen (some v) vs

growth-append :
    (prev : Option ℕ) (vs ws : List ℕ)
    → growth prev (vs ++ ws) ≡ growth prev vs + growth (last_seen prev vs) ws
growth-append none [] ws = omega arith
growth-append (some p) [] ws = omega arith
growth-append none (v ∷ vs) ws = growth-append (some v) vs ws
growth-append (some p) (v ∷ vs) ws = omega (arith, growth-append (some v) vs ws)

last_seen-append :
    (prev : Option ℕ) (vs ws : List ℕ)
    → last_seen (last_seen prev vs) ws ≡ last_seen prev (vs ++ ws)
last_seen-append prev [] ws = refl
last_seen-append prev (v ∷ vs) ws = last_seen-append (some v) vs ws

-- What a log adds to the counter of an index.
abbrev pub scans_of : Metric → String → Bool
scans_of (index_scans_total index table) k = string_eq.beq index k
scans_of metric k = false

abbrev pub added : String → List Publish → ℕ
added k [] = 0
added k (set metric v ∷ log) = added k log
added k (add metric v ∷ log) = (if scans_of metric k then v else 0) + added k log

module _ (E : Type 0) where
  -- The counts of an index that were read, in order, up to the first row that could not be read.
  abbrev pub counts : String → List (Result E IndexRow) → List ℕ
  counts k [] = []
  counts k (err e ∷ rows) = []
  counts k (ok row ∷ rows) =
      let rest = counts k rows in if string_eq.beq row.index k then row.scans ∷ rest else rest

  abbrev pub answered : String → Answer E IndexRow → List ℕ
  answered k (err e) = []
  answered k (ok (rows, rows_err)) = counts k rows

  abbrev pub all_answered : String → List (Answer E IndexRow) → List ℕ
  all_answered k [] = []
  all_answered k (answer ∷ answers) = answered k answer ++ all_answered k answers

  -- What values of an index do to what is published.
  record Follows (k : String) (vs : List ℕ) (p q : Published) : Type 0 where
    seen : lookup k q.tracker ≡ last_seen (lookup k p.tracker) vs
    grown : added k q.log ≡ added k p.log + growth (lookup k p.tracker) vs

  Follows-trans :
      (k : String) (vs ws : List ℕ) (p q r : Published)
      → Follows k vs p q
      → Follows k ws q r
      → Follows k (vs ++ ws) p r
  Follows-trans k vs ws p q r a b = record {
    seen = b.seen ∙ ap (λ o. last_seen o ws) a.seen ∙ last_seen-append (lookup k p.tracker) vs ws;
    grown = omega (
      arith,
      a.grown,
      b.grown,
      ap (λ o. growth o ws) a.seen,
      growth-append (lookup k p.tracker) vs ws,
    );
  }

  added-follow :
      (k index table : String) (prev : Option ℕ) (current : ℕ) (log : List Publish)
      → added k (add_if_positive (index_scans_total index table) (delta_from prev current) log)
        ≡ added k log + (if string_eq.beq index k then growth prev (current ∷ []) else 0)
  unfolding add_if_positive delta_from
  added-follow k index table none current log = ground arith
  added-follow k index table (some q) current log = ground arith

  one_row :
      (k : String) (row : IndexRow) (p q : Published) (b : Bool)
      → string_eq.beq row.index k ≡ b
      → lookup k q.tracker ≡ (if b then some row.scans else lookup k p.tracker)
      → added k q.log
        ≡ added k p.log + (if b then growth (lookup row.index p.tracker) (row.scans ∷ []) else 0)
      → Follows k (if b then row.scans ∷ [] else []) p q
  one_row k row p q true e seen grown = record {
    seen = seen;
    grown =
        grown
        ∙ ap (λ j. added k p.log + growth (lookup j p.tracker) (row.scans ∷ []))
            ((string_eq.beq_iff row.index k).0 e);
  }
  one_row k row p q false e seen grown = record { seen = seen; grown = grown }

  publish_index-Follows :
      (k : String) (row : IndexRow) (p : Published)
      → Follows k (if string_eq.beq row.index k then row.scans ∷ [] else []) p (publish_index row p)
  unfolding publish_index follow delta
  publish_index-Follows k row p =
      one_row k row p (publish_index row p) (string_eq.beq row.index k) refl
        (lookup-insert row.index k row.scans p.tracker)
        (added-follow k row.index row.table (lookup row.index p.tracker) row.scans
          (set (index_size_bytes row.index row.table) row.size_bytes ∷ p.log))

  Follows-refl : (k : String) (p : Published) → Follows k [] p p
  Follows-refl k p = record { seen = refl; grown = omega arith }

  counts-cons :
      (b : Bool) (v : ℕ) (vs : List ℕ)
      → (if b then v ∷ [] else []) ++ vs ≡ (if b then v ∷ vs else vs)
  counts-cons true v vs = refl
  counts-cons false v vs = refl

  publish_rows-Follows :
      (k : String) (rows : List (Result E IndexRow)) (rows_err : Option E) (p : Published)
      → Follows k (counts k rows) p (publish_rows E publish_index rows rows_err p).1
  unfolding publish_rows
  publish_rows-Follows k [] rows_err p = Follows-refl k p
  publish_rows-Follows k (err e ∷ rows) rows_err p = Follows-refl k p
  publish_rows-Follows k (ok row ∷ rows) rows_err p =
      subst
        (λ vs. Follows k vs p (publish_rows E publish_index rows rows_err (publish_index row p)).1)
        (counts-cons (string_eq.beq row.index k) row.scans (counts k rows))
        (Follows-trans k _ (counts k rows) p (publish_index row p) _ (publish_index-Follows k row p)
          (publish_rows-Follows k rows rows_err (publish_index row p)))

  collect_index_stats-Follows :
      (k : String) (answer : Answer E IndexRow) (p : Published)
      → Follows k (answered k answer) p (collect_index_stats E answer p).1
  unfolding collect_index_stats collect
  collect_index_stats-Follows k (err e) p = Follows-refl k p
  collect_index_stats-Follows k (ok (rows, rows_err)) p = publish_rows-Follows k rows rows_err p

  run_index_stats_loop-Follows :
      (k : String) (answers : List (Answer E IndexRow)) (p : Published)
      → Follows k (all_answered k answers) p (run_index_stats_loop E answers p)
  unfolding run_index_stats_loop
  run_index_stats_loop-Follows k [] p = Follows-refl k p
  run_index_stats_loop-Follows k (answer ∷ answers) p =
      Follows-trans k (answered k answer) (all_answered k answers) p
        (collect_index_stats E answer p).1 _ (collect_index_stats-Follows k answer p)
        (run_index_stats_loop-Follows k answers (collect_index_stats E answer p).1)

  -- Whatever the server answers over a run, errors included, the counter of an index has grown by
  -- the sum of the increases between consecutive counts that were read of it: the first count adds
  -- nothing, nor does a count below the one before it, and other indexes make no difference.
  pub added-run_index_stats_loop :
      (k : String) (answers : List (Answer E IndexRow))
      → added k (run_index_stats_loop E answers (record { tracker = new_tracker; log = [] })).log
        ≡ growth none (all_answered k answers)
  unfolding lookup
  added-run_index_stats_loop k answers = omega (
    arith,
    (run_index_stats_loop-Follows k answers (record { tracker = new_tracker; log = [] })).grown,
  )

-- ===== src/Workload/Stats/Conserve.antt =====
-- No drain loses or repeats an observation: any reading, summed over the totals and the windows,
-- is kept.
use pgstorm.Prelude.{
  ℕ, ◌+◌, ◌%◌, Bool, true, false, ◌&&◌, String, string_eq, ◌≡◌, refl, ◌∙◌, List, [], ◌∷◌, word,
  insert, adjust, if◌then◌else◌, arith,
}
use pgstorm.Workload.Float.{Float64}
use pgstorm.Workload.Stats.Window.{OpStats, no_stats, StatsMap, new_worker_stats, snapshot}
use pgstorm.Workload.Stats.Collector.{merge_into, fold_in, drain_workers, StatsCollector, drain}
use pgstorm.Workload.Stats.Sums.{record_interval-ops}
use pgstorm.Workload.Stats.Readings.{Reading}

-- Whether a map has an entry of that name.
abbrev pub has : String → StatsMap → Bool
has op [] = false
has op ((j, s) ∷ m) = if string_eq.beq j op then true else has op m

module _ (R : Reading) where
  open R use {read, read-no_stats, read-merge_into}

  -- The reading of all entries of a name.
  abbrev pub measure : String → StatsMap → ℕ
  measure op [] = 0
  measure op ((j, s) ∷ m) = (if string_eq.beq j op then read s else 0) + measure op m

  abbrev pub measure_all : String → List StatsMap → ℕ
  measure_all op [] = 0
  measure_all op (ws ∷ rest) = measure op ws + measure_all op rest

  measure-insert_new :
      (op k : String) (m : StatsMap) → measure op m ≡ 0 → measure op (insert k no_stats m) ≡ 0
  unfolding insert
  measure-insert_new op k [] h = ground (arith, read-no_stats)
  measure-insert_new op k ((j, s) ∷ m) h = ground (arith, read-no_stats, measure-insert_new op k m)

  pub measure-new : (op : String) (ops : List String) → measure op (new_worker_stats ops) ≡ 0
  unfolding new_worker_stats
  measure-new op [] = refl
  measure-new op (k ∷ ops) = measure-insert_new op k (new_worker_stats ops) (measure-new op ops)

  -- A change of the first entry of a name that adds `g` to its reading.
  pub measure-adjust :
      (op k : String) (f : OpStats → OpStats) (g : ℕ) (dst : StatsMap)
      → ((d : OpStats) → read (f d) % word ≡ (read d + g) % word)
      → measure op (adjust k f dst) % word
        ≡ (measure op dst + (if string_eq.beq k op && has op dst then g else 0)) % word
  unfolding adjust
  measure-adjust op k f g [] law = ground arith
  measure-adjust op k f g ((j, d) ∷ dst) law = ground (
    arith,
    string_eq.beq_iff j k,
    string_eq.beq_iff j op,
    string_eq.beq_iff k op,
    law d,
    measure-adjust op k f g dst law,
  )

  pub has-adjust :
      (op k : String) (f : OpStats → OpStats) (dst : StatsMap)
      → has op (adjust k f dst) ≡ has op dst
  unfolding adjust
  has-adjust op k f [] = refl
  has-adjust op k f ((j, d) ∷ dst) = ground (arith, has-adjust op k f dst)

  pub has-fold_in : (op : String) (dst src : StatsMap) → has op (fold_in dst src) ≡ has op dst
  unfolding fold_in
  has-fold_in op dst [] = refl
  has-fold_in op dst ((k, s) ∷ src) =
      has-fold_in op (adjust k (λ m. merge_into m s) dst) src ∙ has-adjust op k _ dst

  pub measure-fold_in :
      (op : String) (dst src : StatsMap)
      → has op dst ≡ true
      → measure op (fold_in dst src) % word ≡ (measure op dst + measure op src) % word
  unfolding fold_in
  measure-fold_in op dst [] h = omega arith
  measure-fold_in op dst ((k, s) ∷ src) h =
      let dst' = adjust k (λ m. merge_into m s) dst in
      ground (
        arith,
        measure-fold_in op dst' src (has-adjust op k _ dst ∙ h),
        measure-adjust op k (λ m. merge_into m s) (read s) dst (λ d. read-merge_into d s),
      )

  measure-emptied : (op : String) (ws : StatsMap) → measure op (snapshot ws).1 ≡ 0
  unfolding snapshot
  measure-emptied op [] = refl
  measure-emptied op ((j, s) ∷ ws) = ground (arith, read-no_stats, measure-emptied op ws)

  -- Draining the workers moves their windows into the merged one and leaves empty windows.
  pub drain_workers-measure :
      (op : String) (merged : StatsMap) (workers : List StatsMap)
      → has op merged ≡ true
      → (measure op (drain_workers merged workers).0 % word
          ≡ (measure op merged + measure_all op workers) % word)
        × (measure_all op (drain_workers merged workers).1 ≡ 0)
  unfolding drain_workers snapshot
  drain_workers-measure op merged [] h = (omega arith, refl)
  drain_workers-measure op merged (ws ∷ rest) h =
      let ih = drain_workers-measure op (fold_in merged ws) rest (has-fold_in op merged ws ∙ h) in
      (
        omega (arith, ih.0, measure-fold_in op merged ws h),
        omega (arith, ih.1, measure-emptied op ws),
      )

-- The operations that a collector knows have an entry in its totals and in every merged window.
abbrev pub KnowsOps : {F : Float64} → String → StatsCollector F → Type 0
KnowsOps op c = (has op c.total ≡ true) × (has op (new_worker_stats c.series.ops) ≡ true)

-- The reading of an operation over the run: in the totals and in the open windows.
abbrev pub over_run : (R : Reading) {F : Float64} → String → StatsCollector F → ℕ
over_run R op c = measure R op c.total + measure_all R op c.workers

module _ (R : Reading) (F : Float64) where
  -- For every operation that the collector knows and every reading, a drain keeps the sum of the
  -- totals and the windows (modulo 2^64), and the windows read 0 after it.
  pub over_run-drain :
      (op : String) (now : ℕ) (c : StatsCollector F)
      → KnowsOps op c
      → (over_run R op (drain F now c).1 % word ≡ over_run R op c % word)
        × (measure_all R op (drain F now c).1.workers ≡ 0)
  unfolding drain
  over_run-drain op now c k =
      let empty = new_worker_stats c.series.ops in
      let (moved, left) = drain_workers-measure R op empty c.workers k.1 in
      (
        omega (
          arith,
          moved,
          left,
          measure-new R op c.series.ops,
          measure-fold_in R op c.total (drain_workers empty c.workers).0 k.0,
        ),
        left,
      )

  pub drain-KnowsOps :
      (op : String) (now : ℕ) (c : StatsCollector F) → KnowsOps op c → KnowsOps op (drain F now c).1
  unfolding drain
  drain-KnowsOps op now c k = (
    has-fold_in R op c.total _ ∙ k.0,
    rw
        (record_interval-ops F now (drain_workers (new_worker_stats c.series.ops) c.workers).0
          c.series)
        k.1,
  )

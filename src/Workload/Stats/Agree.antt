-- ===== src/Workload/Stats/Agree.antt =====
-- The series agrees with the totals: its intervals hold exactly the operations of the run.
use pgstorm.Prelude.{
  ℕ, zero, suc, ◌+◌, ◌%◌, true, String, string_eq, some, ◌≡◌, refl, ◌∙◌, sym, ap, List, [], ◌∷◌,
  All, word, sum64, insert, adjust, arith,
}
use pgstorm.Workload.Float.{Float64}
use pgstorm.Workload.Stats.Window.{OpStats, no_stats, StatsMap, new_worker_stats, snapshot}
use pgstorm.Workload.Stats.Series.{counts}
use pgstorm.Workload.Stats.Sums.{series_ops, record_interval-ops, record_interval-series_ops}
use pgstorm.Workload.Stats.Collector.{
  merge_into, fold_in, drain_workers, StatsCollector, new_collector, register_worker, drain,
  finalize,
}
use pgstorm.Workload.Stats.Conserve.{has, has-fold_in}
use pgstorm.Workload.Stats.Readings.{reading_count}
use pgstorm.Workload.Stats.Run.{
  Event, records, drains, step, run, started, worker_records-inv, run-invariant,
}

-- Every entry of `src` has its name in `dst`.
abbrev Known : StatsMap → StatsMap → Type 0
Known dst src = All (λ e. has e.0 dst ≡ true) src

sum-adjust :
    (k : String) (s : OpStats) (dst : StatsMap)
    → has k dst ≡ true
    → sum64 (counts (adjust k (λ m. merge_into m s) dst)) % word
      ≡ (sum64 (counts dst) + s.count) % word
unfolding adjust merge_into
sum-adjust k s [] h = cc
sum-adjust k s ((j, d) ∷ dst) h = ground (arith, sum-adjust k s dst)

pub has-adjust_keys :
    (k op : String) (f : OpStats → OpStats) (m : StatsMap) → has op (adjust k f m) ≡ has op m
unfolding adjust
has-adjust_keys k op f [] = refl
has-adjust_keys k op f ((j, s) ∷ m) = ground (arith, has-adjust_keys k op f m)

Known-transfer :
    (dst dst' src : StatsMap)
    → ((op : String) → has op dst ≡ true → has op dst' ≡ true)
    → Known dst src
    → Known dst' src
Known-transfer dst dst' [] f h = tt
Known-transfer dst dst' (e ∷ src) f h = (f e.0 h.0, Known-transfer dst dst' src f h.1)

sum-fold_in :
    (dst src : StatsMap)
    → Known dst src
    → sum64 (counts (fold_in dst src)) % word ≡ (sum64 (counts dst) + sum64 (counts src)) % word
unfolding fold_in
sum-fold_in dst [] h = omega arith
sum-fold_in dst ((k, s) ∷ src) h =
    let dst' = adjust k (λ m. merge_into m s) dst in
    omega (
      arith,
      sum-adjust k s dst h.0,
      sum-fold_in dst' src (
          Known-transfer dst dst' src (λ op p. has-adjust_keys k op (λ m. merge_into m s) dst ∙ p)
            h.1),
    )

-- The names of a map that is changed in place stay known.
Known-adjust :
    (dst : StatsMap) (k : String) (f : OpStats → OpStats) (m : StatsMap)
    → Known dst m
    → Known dst (adjust k f m)
unfolding adjust
Known-adjust dst k f [] h = tt
Known-adjust dst k f ((j, s) ∷ m) h = ground (arith, Known-adjust dst k f m h.1)

Known-fold_in : (dst m src : StatsMap) → Known dst m → Known dst (fold_in m src)
unfolding fold_in
Known-fold_in dst m [] h = h
Known-fold_in dst m ((k, s) ∷ src) h =
    Known-fold_in dst (adjust k (λ t. merge_into t s) m) src (Known-adjust dst k _ m h)

Known-drain_workers :
    (dst m : StatsMap) (workers : List StatsMap)
    → Known dst m
    → Known dst (drain_workers m workers).0
unfolding drain_workers snapshot
Known-drain_workers dst m [] h = h
Known-drain_workers dst m (ws ∷ rest) h =
    Known-drain_workers dst (fold_in m ws) rest (Known-fold_in dst m ws h)

Known-cons : (dst m : StatsMap) (e : String × OpStats) → Known dst m → Known (e ∷ dst) m
Known-cons dst m e = Known-transfer dst (e ∷ dst) m (λ op p. ground arith)

beq_self : (op : String) → string_eq.beq op op ≡ true
beq_self op = (string_eq.beq_iff op op).1 refl

-- A map knows its own names.
Known-self : (m : StatsMap) → Known m m
Known-self [] = tt
Known-self (e ∷ m) = (rw (beq_self e.0), Known-cons m m e (Known-self m))

abbrev Idle : StatsMap → Type 0
Idle m = All (λ e. e.1.count ≡ 0) m

Idle-insert : (k : String) (m : StatsMap) → Idle m → Idle (insert k no_stats m)
unfolding insert
Idle-insert k [] h = (refl, tt)
Idle-insert k ((j, s) ∷ m) h = ground (arith, Idle-insert k m h.1)

Idle-new_worker_stats : (ops : List String) → Idle (new_worker_stats ops)
unfolding new_worker_stats
Idle-new_worker_stats [] = tt
Idle-new_worker_stats (op ∷ ops) = Idle-insert op (new_worker_stats ops) (Idle-new_worker_stats ops)

sum-Idle : (m : StatsMap) → Idle m → sum64 (counts m) ≡ 0
sum-Idle [] h = refl
sum-Idle ((k, s) ∷ m) h = omega (arith, h.0, sum-Idle m h.1)

module _ (F : Float64) where
  -- The totals have the names of the collector's operations.
  abbrev KeysAgree : StatsCollector F → Type 0
  KeysAgree c = (op : String) → has op c.total ≡ has op (new_worker_stats c.series.ops)

  -- The series holds as many operations as the totals.
  abbrev pub SeriesAgrees : StatsCollector F → Type 0
  SeriesAgrees c = series_ops F c.series.intervals % word ≡ sum64 (counts c.total) % word

  drain-Agrees :
      (now : ℕ) (c : StatsCollector F)
      → KeysAgree c
      → SeriesAgrees c
      → KeysAgree (drain F now c).1 × SeriesAgrees (drain F now c).1
  unfolding drain
  drain-Agrees now c keys sums = (
    keys',
    omega (
      arith,
      sums,
      record_interval-series_ops F now merged c.series,
      sum-fold_in c.total merged known,
    ),
  )
    where
      merged : StatsMap
      merged = (drain_workers (new_worker_stats c.series.ops) c.workers).0

      keys' : KeysAgree (drain F now c).1
      keys' op =
          has-fold_in reading_count op c.total merged
          ∙ keys op
          ∙ ap (λ os. has op (new_worker_stats os))
              (sym (record_interval-ops F now merged c.series))

      known : Known c.total merged
      known = Known-drain_workers c.total (new_worker_stats c.series.ops) c.workers (
          Known-transfer (new_worker_stats c.series.ops) c.total (new_worker_stats c.series.ops)
            (λ op p. keys op ∙ p) (Known-self (new_worker_stats c.series.ops)))

  step-Agrees :
      (c d : StatsCollector F) (e : Event F)
      → step F c e ≡ some d
      → KeysAgree c × SeriesAgrees c
      → KeysAgree d × SeriesAgrees d
  unfolding step
  step-Agrees c d (records i k duration failed) h a =
      let (ws, ws', at, done, e) = worker_records-inv F c d i k duration failed h in rw e a
  step-Agrees c d (drains now) h a =
      let same : (drain F now c).1 ≡ d = cc in rw (← same) (drain-Agrees now c a.0 a.1)

  started-Agrees :
      (ops : List String) (start workers : ℕ)
      → KeysAgree (started F ops start workers) × SeriesAgrees (started F ops start workers)
  unfolding started new_collector register_worker
  started-Agrees ops start zero =
      (λ op. refl, omega (arith, sum-Idle (new_worker_stats ops) (Idle-new_worker_stats ops)))
  started-Agrees ops start (suc n) = started-Agrees ops start n

  -- After any run from the start and `Finalize`, the operations of the returned intervals add up to
  -- those of the returned totals, in the arithmetic of `int64`.
  pub finalize-series_ops :
      (ops : List String) (start workers now : ℕ) (es : List (Event F)) {c : StatsCollector F}
      → run F (started F ops start workers) es ≡ some c
      → series_ops F (finalize F now c).0.1 % word ≡ sum64 (counts (finalize F now c).0.0) % word
  unfolding finalize
  finalize-series_ops ops start workers now es {c} h =
      let a =
        run-invariant F (λ d. KeysAgree d × SeriesAgrees d) step-Agrees
          (started F ops start workers) c es h (started-Agrees ops start workers) in
      (drain-Agrees now c a.0 a.1).1

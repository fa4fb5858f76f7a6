-- ===== src/Workload/Stats/Run.antt =====
-- A run of the statistics: any interleaving of records by the workers with drains by the summary
-- loop and by `Finalize`.
use mathlib.Core.Option
use pgstorm.Prelude.{
  ℕ, zero, suc, ◌+◌, ◌%◌, ℤ, Bool, true, String, string_eq, Option, none, some, ◌≡◌, refl, ap,
  subst, List, [], ◌∷◌, ◌++◌, word, lookup, get_elem?, set, Option-cases, inl, inr, if◌then◌else◌,
  arith,
}
use pgstorm.Workload.Float.{Float64}
use pgstorm.Workload.Stats.Window.{OpStats, StatsMap, record_us, record_op, new_worker_stats}
use pgstorm.Workload.Stats.Collector.{
  StatsCollector, new_collector, register_worker, worker_records, drain, finalize,
}
use pgstorm.Workload.Stats.Readings.{Reading}
use pgstorm.Workload.Stats.Conserve.{
  has, measure, measure_all, measure-adjust, measure-new, KnowsOps, over_run, over_run-drain,
  drain-KnowsOps,
}

pub none-ne-some {ℓ} : {A : Type ℓ} {a : A} → ¬ (◌≡◌ {A = Option A} none (some a))
none-ne-some h = cc

lookup-has : (op : String) (m : StatsMap) (s : OpStats) → lookup op m ≡ some s → has op m ≡ true
unfolding lookup
lookup-has op [] s h = cc
lookup-has op ((j, t) ∷ m) s h = ground (arith, lookup-has op m s)

module _ (F : Float64) where
  open F use {Float, to_int, mul, ratio}

  -- One step of some goroutine: worker `i` records an operation, or a summary drains.
  pub data Event : Type 0 where
    records : ℕ → String → Float → Bool → Event
    drains : ℕ → Event

  unfoldable pub step : StatsCollector F → Event → Option (StatsCollector F)
  step c (records i op duration failed) = worker_records F c i op duration failed
  step c (drains now) = some (drain F now c).1

  -- `none` where a goroutine panics.
  unfoldable pub run : StatsCollector F → List Event → Option (StatsCollector F)
  unfolding Option.bind step
  run c [] = some c
  run c (e ∷ es) = Option.bind (step c e) (λ d. run d es)

  -- A collector with so many workers, none of which has recorded yet.
  unfoldable pub started : List String → ℕ → ℕ → StatsCollector F
  started ops now zero = new_collector F ops now
  started ops now (suc n) = register_worker F (started ops now n)

  abbrev microseconds : Float → ℤ
  microseconds duration = to_int (mul duration (ratio 1000000 1))

  -- A record that succeeds changes the window of its worker alone.
  pub worker_records-inv :
      (c d : StatsCollector F) (i : ℕ) (k : String) (duration : Float) (failed : Bool)
      → worker_records F c i k duration failed ≡ some d
      → (ws ws' : StatsMap) × (get_elem? c.workers i ≡ some ws)
        × (record_op F k duration failed ws ≡ some ws')
        × (d ≡ record c { workers = set c.workers i ws' })
  unfolding worker_records
  worker_records-inv c d i k duration failed h = elim (Option-cases (get_elem? c.workers i)) [
    | inl e ↦ absurd (none-ne-some (rw e at h))
    | inr (ws, e) ↦ elim (Option-cases (record_op F k duration failed ws)) [
      | inl f ↦ absurd (none-ne-some (rw (e, f) at h))
      | inr (ws', f) ↦ (ws, ws', e, f, cc (rw (e, f) at h))
    ]
  ]

  -- What every step keeps, a run keeps.
  pub run-invariant {ℓ} :
      (P : StatsCollector F → Type ℓ)
      → ((c d : StatsCollector F) (e : Event) → step c e ≡ some d → P c → P d)
      → (c d : StatsCollector F) (es : List Event) → run c es ≡ some d
      → P c
      → P d
  unfolding run
  run-invariant P keep c d [] h p = let same : c ≡ d = cc in subst P same p
  run-invariant P keep c d (e ∷ es) h p = elim (Option-cases (step c e)) [
    | inl n ↦ absurd (none-ne-some (rw n at h))
    | inr (c', n) ↦ run-invariant P keep c' d es (rw n at h) (keep c c' e n p)
  ]

  module _ (R : Reading) where
    open R use {read, gain, read-record_us}

    -- What the events add to the reading of an operation.
    abbrev pub tally : String → List Event → ℕ
    tally op [] = 0
    tally op (records i k duration failed ∷ es) =
        (if string_eq.beq k op then gain (microseconds duration) failed else 0) + tally op es
    tally op (drains now ∷ es) = tally op es

    measure_all-set :
        (op : String) (i : ℕ) (workers : List StatsMap) (ws ws' : StatsMap) (g : ℕ)
        → get_elem? workers i ≡ some ws
        → measure R op ws' % word ≡ (measure R op ws + g) % word
        → measure_all R op (set workers i ws') % word ≡ (measure_all R op workers + g) % word
    measure_all-set op i [] ws ws' g at law = cc
    measure_all-set op zero (w ∷ workers) ws ws' g at law = ground arith
    measure_all-set op (suc i) (w ∷ workers) ws ws' g at law =
        omega (arith, measure_all-set op i workers ws ws' g at law)

    pub measure-record_op :
        (op k : String) (duration : Float) (failed : Bool) (ws ws' : StatsMap)
        → record_op F k duration failed ws ≡ some ws'
        → measure R op ws' % word
          ≡ (measure R op ws
              + (if string_eq.beq k op then gain (microseconds duration) failed else 0))
            % word
    unfolding record_op
    measure-record_op op k duration failed ws ws' h = elim (Option-cases (lookup k ws)) [
      | inl e ↦ cc (rw e at h)
      | inr (s, e) ↦ ground (
        arith,
        rw e at h,
        lookup-has k ws s e,
        string_eq.beq_iff k op,
        measure-adjust R op k (record_us (microseconds duration) failed)
            (gain (microseconds duration) failed) ws
            (λ d. read-record_us (microseconds duration) failed d),
      )
    ]

    -- A record adds to the open windows, and leaves the totals and the series alone.
    over_run-worker_records :
        (op : String) (c d : StatsCollector F) (i : ℕ) (k : String) (duration : Float)
        (failed : Bool)
        → worker_records F c i k duration failed ≡ some d
        → (over_run R op d % word
            ≡ (over_run R op c
                + (if string_eq.beq k op then gain (microseconds duration) failed else 0))
              % word)
          × (d.total ≡ c.total)
          × (d.series ≡ c.series)
    over_run-worker_records op c d i k duration failed h =
        let (ws, ws', at, done, e) = worker_records-inv c d i k duration failed h in
        rw e (
          omega (
            arith,
            measure_all-set op i c.workers ws ws' _ at
                (measure-record_op op k duration failed ws ws' done),
          ),
          refl,
          refl,
        )

    -- An event keeps what the collector knows, and adds its tally.
    step-tally :
        (op : String) (c d : StatsCollector F) (e : Event)
        → KnowsOps op c
        → step c e ≡ some d
        → KnowsOps op d × (over_run R op d % word ≡ (over_run R op c + tally op (e ∷ [])) % word)
    unfolding step
    step-tally op c d (records i k duration failed) known h =
        let (sum, t, s) = over_run-worker_records op c d i k duration failed h in
        ((rw t known.0, rw s known.1), omega (arith, sum))
    step-tally op c d (drains now) known h =
        let same : (drain F now c).1 ≡ d = cc in
        rw (← same)
          (drain-KnowsOps R F op now c known, omega (arith, (over_run-drain R F op now c known).0))

    tally-cons :
        (op : String) (e : Event) (es : List Event)
        → tally op (e ∷ es) ≡ tally op (e ∷ []) + tally op es
    tally-cons op (records i k duration failed) es = omega arith
    tally-cons op (drains now) es = omega arith

    run-tally :
        (op : String) (c d : StatsCollector F) (es : List Event)
        → KnowsOps op c
        → run c es ≡ some d
        → KnowsOps op d × (over_run R op d % word ≡ (over_run R op c + tally op es) % word)
    unfolding run
    run-tally op c d [] known h = let same : c ≡ d = cc in rw (← same) (known, omega arith)
    run-tally op c d (e ∷ es) known h = elim (Option-cases (step c e)) [
      | inl n ↦ absurd (none-ne-some (rw n at h))
      | inr (c', n) ↦
          let (known', one) = step-tally op c c' e known n in
          let (known'', rest) = run-tally op c' d es known' (rw n at h) in
          (known'', omega (arith, one, rest, tally-cons op e es))
    ]

    measure_all-append :
        (op : String) (xs ys : List StatsMap)
        → measure_all R op (xs ++ ys) ≡ measure_all R op xs + measure_all R op ys
    measure_all-append op [] ys = omega arith
    measure_all-append op (x ∷ xs) ys = omega (arith, measure_all-append op xs ys)

    started-zero :
        (op : String) (ops : List String) (now n : ℕ)
        → ((started ops now n).series.ops ≡ ops)
          × ((started ops now n).total ≡ new_worker_stats ops)
          × (measure_all R op (started ops now n).workers ≡ 0)
    unfolding started new_collector register_worker
    started-zero op ops now zero = (refl, refl, refl)
    started-zero op ops now (suc n) =
        let (o, t, w) = started-zero op ops now n in
        (
          o,
          t,
          omega (
            arith,
            w,
            measure-new R op (started ops now n).series.ops,
            measure_all-append op (started ops now n).workers
                (new_worker_stats (started ops now n).series.ops ∷ []),
          ),
        )

    -- A run from the start, with any number of workers and any interleaving of records and drains,
    -- followed by `Finalize`: for each operation of the profile, any reading of the returned totals
    -- is the tally of all that the workers recorded, modulo 2^64. Nothing is lost or counted twice.
    pub finalize-tally :
        (op : String) (ops : List String) (start workers now : ℕ) (es : List Event)
        {c : StatsCollector F}
        → has op (new_worker_stats ops) ≡ true
        → run (started ops start workers) es ≡ some c
        → measure R op (finalize F now c).0.0 % word ≡ tally op es % word
    unfolding finalize
    finalize-tally op ops start workers now es {c} known h =
        let (o, t, w) = started-zero op ops start workers in
        let knows : KnowsOps op (started ops start workers) = (rw t known, rw o known) in
        let (knows', sum) = run-tally op (started ops start workers) c es knows h in
        let (kept, emptied) = over_run-drain R F op now c knows' in
        omega (arith, sum, kept, emptied, w, ap (measure R op) t, measure-new R op ops)

-- ===== src/Workload/Stats/Progress.antt =====
-- The statistics never panic: workers record only the operations of the profile, under their own
-- number.
use pgstorm.Prelude.{
  ℕ, zero, suc, ◌<◌, ◌%◌, word, sum64, Bool, true, String, string_eq, some, ◌≡◌, subst, Bool-cases,
  inl, inr, refl, ◌∙◌, ap, List, [], ◌∷◌, ◌++◌, All, length, length-append, length-set, get_elem?,
  get_elem?-some, set, lookup, adjust, arith,
}
use pgstorm.Workload.Float.{Float64}
use pgstorm.Workload.Stats.Window.{
  OpStats, StatsMap, record_us, record_op, new_worker_stats, snapshot,
}
use pgstorm.Workload.Stats.Collector.{
  StatsCollector, new_collector, register_worker, worker_records, drain, finalize, drain_workers,
  fold_in,
}
use pgstorm.Workload.Stats.Sums.{series_ops, record_interval-ops}
use pgstorm.Workload.Stats.Conserve.{has, measure}
use pgstorm.Workload.Stats.Series.{counts}
use pgstorm.Workload.Stats.Readings.{Reading}
use pgstorm.Workload.Stats.Run.{
  Event, records, drains, step, run, started, none-ne-some, tally, finalize-tally,
}
use pgstorm.Workload.Stats.Agree.{has-adjust_keys, finalize-series_ops}

lookup-has-some :
    (op : String) (m : StatsMap) → has op m ≡ true → (s : OpStats) × (lookup op m ≡ some s)
unfolding lookup
lookup-has-some op [] h = absurd (ground arith)
lookup-has-some op ((j, s) ∷ m) h = elim (Bool-cases (string_eq.beq j op)) [
  | inl e ↦ rw e (s, refl)
  | inr e ↦ rw e (lookup-has-some op m (rw e at h))
]

-- A window has an entry for every operation of the profile.
abbrev HasAll : List String → StatsMap → Type 0
HasAll ops ws = (op : String) → has op (new_worker_stats ops) ≡ true → has op ws ≡ true

has-snapshot : (op : String) (ws : StatsMap) → has op (snapshot ws).1 ≡ has op ws
unfolding snapshot
has-snapshot op [] = refl
has-snapshot op ((j, s) ∷ ws) = ground (arith, has-snapshot op ws)

pub All-get {ℓ κ} :
    {A : Type ℓ} (P : A → Type κ) (xs : List A) (i : ℕ) (x : A)
    → All P xs
    → get_elem? xs i ≡ some x
    → P x
All-get P [] i x h e = absurd (none-ne-some e)
All-get P (y ∷ xs) zero x h e = let same : y ≡ x = cc in subst P same h.0
All-get P (y ∷ xs) (suc i) x h e = All-get P xs i x h.1 e

pub All-set {ℓ κ} :
    {A : Type ℓ} (P : A → Type κ) (xs : List A) (i : ℕ) (x : A)
    → All P xs
    → P x
    → All P (set xs i x)
All-set P [] i x h p = tt
All-set P (y ∷ xs) zero x h p = (p, h.1)
All-set P (y ∷ xs) (suc i) x h p = (h.0, All-set P xs i x h.1 p)

drain_workers-HasAll :
    (ops : List String) (m : StatsMap) (workers : List StatsMap)
    → All (HasAll ops) workers
    → All (HasAll ops) (drain_workers m workers).1
unfolding drain_workers
drain_workers-HasAll ops m [] h = tt
drain_workers-HasAll ops m (ws ∷ rest) h = (
  (λ op p. has-snapshot op ws ∙ h.0 op p),
  drain_workers-HasAll ops (fold_in m (snapshot ws).0) rest h.1,
)

length-drain_workers :
    (m : StatsMap) (workers : List StatsMap) → length (drain_workers m workers).1 ≡ length workers
unfolding drain_workers
length-drain_workers m [] = refl
length-drain_workers m (ws ∷ rest) = ap suc (length-drain_workers (fold_in m (snapshot ws).0) rest)

module _ (F : Float64) where
  -- A record by one of `n` workers, of an operation of the profile.
  abbrev pub Valid : List String → ℕ → Event F → Type 0
  Valid ops n (records i op duration failed) = (i < n) × (has op (new_worker_stats ops) ≡ true)
  Valid ops n (drains now) = Unit

  pub record Ready (ops : List String) (n : ℕ) (c : StatsCollector F) : Type 0 where
    pub known : c.series.ops ≡ ops
    pub size : length c.workers ≡ n
    windows : All (HasAll ops) c.workers

  record_op-some :
      (ops : List String) (op : String) (duration : F.Float) (failed : Bool) (ws : StatsMap)
      → HasAll ops ws
      → has op (new_worker_stats ops) ≡ true
      → (ws' : StatsMap) × (record_op F op duration failed ws ≡ some ws') × HasAll ops ws'
  unfolding record_op
  record_op-some ops op duration failed ws h p =
      let (s, e) = lookup-has-some op ws (h op p) in
      (
        adjust op (record_us (F.to_int (F.mul duration (F.ratio 1000000 1))) failed) ws,
        rw e,
        λ k q. has-adjust_keys op k _ ws ∙ h k q,
      )

  pub step-some :
      (ops : List String) (n : ℕ) (c : StatsCollector F) (e : Event F)
      → Ready ops n c
      → Valid ops n e
      → (d : StatsCollector F) × (step F c e ≡ some d) × Ready ops n d
  unfolding step worker_records
  step-some ops n c (records i op duration failed) r v =
      let (ws, at) = get_elem?-some c.workers i (rw r.size v.0) in
      let (ws', done, h) =
        record_op-some ops op duration failed ws (All-get (HasAll ops) c.workers i ws r.windows at)
          v.1 in
      (
        record c { workers = set c.workers i ws' },
        rw (at, done),
        record {
          known = r.known;
          size = length-set c.workers i ws' ∙ r.size;
          windows = All-set (HasAll ops) c.workers i ws' r.windows h;
        },
      )
  step-some ops n c (drains now) r v = ((drain F now c).1, refl, drained)
    where
      drained : Ready ops n (drain F now c).1
      drained =
          unfold drain in
          record {
            known = record_interval-ops F now _ c.series ∙ r.known;
            size = length-drain_workers _ c.workers ∙ r.size;
            windows = drain_workers-HasAll ops _ c.workers r.windows;
          }

  pub run-some :
      (ops : List String) (n : ℕ) (c : StatsCollector F) (es : List (Event F))
      → Ready ops n c
      → All (Valid ops n) es
      → (d : StatsCollector F) × (run F c es ≡ some d)
  unfolding run
  run-some ops n c [] r v = (c, refl)
  run-some ops n c (e ∷ es) r v =
      let (d, one, r') = step-some ops n c e r v.0 in
      let (c', rest) = run-some ops n d es r' v.1 in (c', rw one rest)

  pub All-snoc {ℓ κ} :
      {A : Type ℓ} (P : A → Type κ) (xs : List A) (x : A) → All P xs → P x → All P (xs ++ (x ∷ []))
  All-snoc P [] x h p = (p, tt)
  All-snoc P (y ∷ xs) x h p = (h.0, All-snoc P xs x h.1 p)

  pub started-Ready : (ops : List String) (start n : ℕ) → Ready ops n (started F ops start n)
  unfolding started new_collector register_worker
  started-Ready ops start zero = record { known = refl; size = refl; windows = tt }
  started-Ready ops start (suc n) =
      let r = started-Ready ops start n in
      record {
        known = r.known;
        size = omega (
          arith,
          length-append (started F ops start n).workers
              (new_worker_stats (started F ops start n).series.ops ∷ []),
          r.size,
        );
        windows =
            All-snoc (HasAll ops) (started F ops start n).workers _ r.windows
              (λ op p. rw r.known p);
      }

  -- Workers that record under their own number, and operations of the profile only, never panic:
  -- from the start, every interleaving of their records with drains runs to its end, and after
  -- `Finalize` the series adds up to the totals and every reading of an operation is the tally of
  -- what was recorded of it (both modulo 2^64).
  pub run-finalize :
      (R : Reading) (ops : List String) (op : String) (start n now : ℕ) (es : List (Event F))
      → has op (new_worker_stats ops) ≡ true
      → All (Valid ops n) es
      → (c : StatsCollector F) × (run F (started F ops start n) es ≡ some c)
        × (measure R op (finalize F now c).0.0 % word ≡ tally F R op es % word)
        × (series_ops F (finalize F now c).0.1 % word
            ≡ sum64 (counts (finalize F now c).0.0) % word)
  run-finalize R ops op start n now es known v =
      let (c, done) = run-some ops n (started F ops start n) es (started-Ready ops start n) v in
      (
        c,
        done,
        finalize-tally F R op ops start n now es known done,
        finalize-series_ops F ops start n now es done,
      )

-- ===== src/Workload/Fleet/Sound.antt =====
-- What holds of the workers together between any two events: the statistics are those of the
-- operations that were published, and the ring holds what was inserted.
use pgstorm.Prelude.{
  ℕ, zero, suc, ◌+◌, true, false, String, string_eq, Option, none, some, ◌≡◌, refl, ap, List, [],
  ◌∷◌, ◌++◌, All, length, get_elem?, set, arith, Option-cases, inl, inr,
}
use pgstorm.Workload.Ring.Recent.{Represents}
use pgstorm.Workload.Payload.Stocked.{Stocked}
use pgstorm.Workload.Float.{Float64}
use pgstorm.Workload.Weights.{WeightedOp, op_names}
use pgstorm.Workload.Stats.Window.{new_worker_stats}
use pgstorm.Workload.Stats.Collector.{StatsCollector}
use pgstorm.Workload.Stats.Conserve.{has}
use pgstorm.Workload.Stats.Readings.{Reading, reading_count, reading_errors}
use pgstorm.Workload.Stats.Run.{Event, records, drains, step, run, started, tally, none-ne-some}
use pgstorm.Workload.Stats.Progress.{Valid}
use pgstorm.Workload.Stats.Progress as Progress
use pgstorm.Workload.Ops.{Driver, Error}
use pgstorm.Workload.Worker.{MetricCall, is_error, record_op_metrics}
use pgstorm.Workload.Worker.Oltp.{oltp}
use pgstorm.Workload.Worker.Account.{dones, failures, durations}
use pgstorm.Workload.Fleet.{Returned, Member, Fleet}
use pgstorm.Workload.Fleet.Grows.{pushes}

pub set-get {ℓ} :
    {A : Type ℓ} (xs : List A) (i : ℕ) (x : A) → get_elem? xs i ≡ some x → set xs i x ≡ xs
set-get [] i x e = refl
set-get (y ∷ xs) zero x e = cc
set-get (y ∷ xs) (suc i) x e = ap (λ t. y ∷ t) (set-get xs i x e)

module _ (F : Float64) where
  pub tally-snoc :
      (R : Reading) (k : String) (es : List (Event F)) (e : Event F)
      → tally F R k (es ++ (e ∷ [])) ≡ tally F R k es + tally F R k (e ∷ [])
  tally-snoc R k [] e = omega arith
  tally-snoc R k (records i op d failed ∷ es) e = omega (arith, tally-snoc R k es e)
  tally-snoc R k (drains now ∷ es) e = tally-snoc R k es e

  pub run-snoc :
      (b c d : StatsCollector F) (es : List (Event F)) (e : Event F)
      → run F b es ≡ some c
      → step F c e ≡ some d
      → run F b (es ++ (e ∷ [])) ≡ some d
  unfolding run
  run-snoc b c d [] e h k = let same : b ≡ c = cc in rw (same, k) refl
  run-snoc b c d (x ∷ es) e h k = elim (Option-cases (step F b x)) [
    | inl gone ↦ absurd (none-ne-some (rw gone at h))
    | inr (b', one) ↦ rw one (run-snoc b' c d es e (rw one at h) k)
  ]

-- An operation of the mix.
abbrev pub IsKnown : List WeightedOp → String → Type 0
IsKnown ops k = has k (new_worker_stats (op_names ops)) ≡ true

module _ (F : Float64) {D : Driver} where
  -- The metrics count of an operation what the collector was told of it.
  pub record Counts (k : String) (es : List (Event F)) (log : List (MetricCall F (oltp D)))
      : Type 0 where
    pub counted : tally F reading_count k es ≡ dones F (oltp D) k log + failures F (oltp D) k log
    pub erred : tally F reading_errors k es ≡ failures F (oltp D) k log
    pub observed : durations F (oltp D) k log ≡ dones F (oltp D) k log

  -- An operation that is told to the collector and published.
  pub records-Counts :
      (k op : String) (i : ℕ) (d : F.Float) (q : Option (Error D)) (es : List (Event F))
      (log : List (MetricCall F (oltp D)))
      → Counts k es log
      → Counts k
          (es ++ (records i op d (is_error F (oltp D) q) ∷ []))
          (record_op_metrics F (oltp D) op d q log)
  unfolding record_op_metrics reading_count reading_errors
  records-Counts k op i d none es log c =
      let e : Event F = records i op d false in
      record {
        counted = ground (arith, tally-snoc F reading_count k es e, c.counted);
        erred = ground (arith, tally-snoc F reading_errors k es e, c.erred);
        observed = ground (arith, c.observed);
      }
  records-Counts k op i d (some x) es log c =
      let e : Event F = records i op d true in
      record {
        counted = ground (arith, tally-snoc F reading_count k es e, c.counted);
        erred = ground (arith, tally-snoc F reading_errors k es e, c.erred);
        observed = ground (arith, c.observed);
      }

  pub dones-record_op_metrics :
      (k op : String) (d : F.Float) (q : Option (Error D)) (log : List (MetricCall F (oltp D)))
      → dones F (oltp D) k (record_op_metrics F (oltp D) op d q log)
        ≡ dones F (oltp D) k log + pushes (string_eq.beq op k) q
  unfolding record_op_metrics
  dones-record_op_metrics k op d none log = ground arith
  dones-record_op_metrics k op d (some x) log = ground arith

  -- The ids that a returned operation has pushed and that are not published yet.
  abbrev pub pending_of : Option (Returned F D) → ℕ
  pending_of none = 0
  pending_of (some r) = pushes (string_eq.beq r.op "insert") r.error

  abbrev pub pending : List (Member F D) → ℕ
  pending [] = 0
  pending (m ∷ ms) = pending_of m.returned + pending ms

  pub pending-set :
      (ms : List (Member F D)) (i : ℕ) (m m' : Member F D)
      → get_elem? ms i ≡ some m
      → pending (set ms i m') + pending_of m.returned ≡ pending ms + pending_of m'.returned
  pending-set [] i m m' e = cc
  pending-set (x ∷ ms) zero m m' e =
      let same : x ≡ m = cc in omega (arith, ap (λ (y : Member F D). pending_of y.returned) same)
  pending-set (x ∷ ms) (suc i) m m' e = omega (arith, pending-set ms i m m' e)

  abbrev pub Expected : List WeightedOp → Option (Returned F D) → Type 0
  Expected ops none = Unit
  Expected ops (some r) = IsKnown ops r.op

  -- A worker with full pools, whose operation is one of the mix.
  abbrev pub Fit : List WeightedOp → Member F D → Type 0
  Fit ops m = Stocked m.executor.pools × Expected ops m.returned

  module _ (ops : List WeightedOp) (start n : ℕ) where
    pub record Sound (f : Fleet F D) : Type 0 where
      -- What the collector has seen: records and drains.
      pub events : List (Event F)
      pub ran : run F (started F (op_names ops) start n) events ≡ some f.collector
      pub valid : All (Valid F (op_names ops) n) events
      pub fit : Progress.Ready F (op_names ops) n f.collector
      pub counts : (k : String) → Counts k events f.metrics
      -- The ring's history holds an id for each insert that is done, published or about to be.
      pub recent : List ℕ
      pub ring : Represents f.ring recent
      pub inserted : length recent ≡ dones F (oltp D) "insert" f.metrics + pending f.members
      pub crew : All (Fit ops) f.members
      pub size : length f.members ≡ n

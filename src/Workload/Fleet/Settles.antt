-- ===== src/Workload/Fleet/Settles.antt =====
-- What a worker does with the outcome of its operation keeps the workers sound.
use pgstorm.Prelude.{
  ℕ, zero, suc, ◌<◌, Bool, ◌&&◌, String, string_eq, Option, none, some, ◌≡◌, refl, ap, subst, ◌∙◌,
  List, [], ◌∷◌, ◌++◌, All, length, length-set, get_elem?, set, arith, Bool-cases, inl, inr,
}
use pgstorm.Workload.Float.{Float64}
use pgstorm.Workload.Weights.{WeightedOp, op_names}
use pgstorm.Workload.Stats.Window.{StatsMap, record_op}
use pgstorm.Workload.Stats.Run.{Event, records, step, started, worker_records-inv}
use pgstorm.Workload.Stats.Progress.{Valid, All-get, All-set, All-snoc, step-some}
use pgstorm.Workload.Stats.Progress as Progress
use pgstorm.Workload.Ops.{Driver, Error}
use pgstorm.Workload.Worker.{
  MetricCall, Turn, is_error, record_op_metrics, record_skip, with_stats, ops_skipped, is_skip,
  is_shutdown_cancellation, classify,
}
use pgstorm.Workload.Worker.Oltp.{oltp, is_skipped, is_context_error}
use pgstorm.Workload.Worker.Account.{dones, failures, durations}
use pgstorm.Workload.Fleet.{Returned, Member, Fleet, worker_of, settled, settle_one}
use pgstorm.Workload.Fleet.Grows.{pushes_failed}
use pgstorm.Workload.Fleet.Sound.{
  Expected, set-get, run-snoc, pending_of, pending-set, IsKnown, Fit, Sound, Counts, records-Counts,
  dones-record_op_metrics,
}

pub get-lt {ℓ} :
    {A : Type ℓ} (xs : List A) (i : ℕ) (x : A) → get_elem? xs i ≡ some x → i < length xs
get-lt [] i x e = cc
get-lt (y ∷ xs) zero x e = omega arith
get-lt (y ∷ xs) (suc i) x e = omega (arith, get-lt xs i x e)

module _ (F : Float64) {D : Driver} (ops : List WeightedOp) (start n : ℕ) where
  -- Its worker has nothing left to settle.
  abbrev after : Fleet F D → ℕ → Member F D → StatsMap → List (MetricCall F (oltp D)) → Fleet F D
  after f i m ws log = record f {
    members = set f.members i (record m { returned = none });
    collector = record f.collector { workers = set f.collector.workers i ws };
    metrics = log;
  }

  -- A log that counts the same operations.
  abbrev SameCounts : List (MetricCall F (oltp D)) → List (MetricCall F (oltp D)) → Type 0
  SameCounts log log' =
      (k : String)
      → (dones F (oltp D) k log' ≡ dones F (oltp D) k log)
        × (failures F (oltp D) k log' ≡ failures F (oltp D) k log)
        × (durations F (oltp D) k log' ≡ durations F (oltp D) k log)

  pub SameCounts-Counts :
      (k : String) (es : List (Event F)) (log log' : List (MetricCall F (oltp D)))
      → SameCounts log log'
      → Counts F k es log
      → Counts F k es log'
  SameCounts-Counts k es log log' same c =
      let (a, b, d) = same k in
      record {
        counted = omega (arith, c.counted, a, b);
        erred = omega (arith, c.erred, b);
        observed = omega (arith, c.observed, a, d);
      }

  module _ (f : Fleet F D) (s : Sound F ops start n f) (i : ℕ) (m : Member F D)
      (at : get_elem? f.members i ≡ some m) where
    crew' : All (Fit F ops) (set f.members i (record m { returned = none }))
    crew' =
        All-set (Fit F ops) f.members i (record m { returned = none }) s.crew
          ((All-get (Fit F ops) f.members i m s.crew at).0, tt)

    -- An operation that is not recorded, and has pushed nothing.
    unrecorded-Sound :
        (ws : StatsMap) (log : List (MetricCall F (oltp D)))
        → get_elem? f.collector.workers i ≡ some ws
        → SameCounts f.metrics log
        → pending_of F m.returned ≡ 0
        → Sound F ops start n (after f i m ws log)
    unrecorded-Sound ws log wat same nothing =
        let kept : (record f.collector { workers = set f.collector.workers i ws }) ≡ f.collector =
          ap (λ w. record f.collector { workers = w }) (set-get f.collector.workers i ws wat) in
        record {
          events = s.events;
          ran = rw kept s.ran;
          valid = s.valid;
          fit = rw kept s.fit;
          counts = λ k. SameCounts-Counts k s.events f.metrics log same (s.counts k);
          recent = s.recent;
          ring = s.ring;
          inserted = omega (
            arith,
            s.inserted,
            (same "insert").0,
            nothing,
            pending-set F f.members i m (record m { returned = none }) at,
          );
          crew = crew';
          size = length-set f.members i (record m { returned = none }) ∙ s.size;
        }

    module _ (turn : Turn F (oltp D)) (op : String) (q : Option (Error D)) (ws : StatsMap)
        (wat : get_elem? f.collector.workers i ≡ some ws)
        (e : m.returned ≡ some (record { op = op; error = q })) where
      abbrev failed : Bool
      failed = is_error F (oltp D) q

      abbrev log' : List (MetricCall F (oltp D))
      log' = record_op_metrics F (oltp D) op turn.duration q f.metrics

      recorded-Sound :
          (i < n)
          → IsKnown ops op
          → (ws' : StatsMap) × (record_op F op turn.duration failed ws ≡ some ws')
            × Sound F ops start n (after f i m ws' log')
      unfolding step
      recorded-Sound lt known =
          let event = records i op turn.duration failed in
          let (d, one, fit) = step-some F (op_names ops) n f.collector event s.fit (lt, known) in
          let (ws0, ws', at0, done, same) =
            worker_records-inv F f.collector d i op turn.duration failed one in
          (
            ws',
            rw (← done) (let eq : ws0 ≡ ws = cc in rw eq refl),
            record {
              events = s.events ++ (event ∷ []);
              ran =
                  run-snoc F (started F (op_names ops) start n) f.collector _ s.events event s.ran
                    (one ∙ ap some same);
              valid = All-snoc F (Valid F (op_names ops) n) s.events event s.valid (lt, known);
              fit = subst (Progress.Ready F (op_names ops) n) same fit;
              counts = λ k. records-Counts F k op i turn.duration q s.events f.metrics (s.counts k);
              recent = s.recent;
              ring = s.ring;
              inserted = omega (
                arith,
                s.inserted,
                dones-record_op_metrics F "insert" op turn.duration q f.metrics,
                pending-set F f.members i m (record m { returned = none }) at,
                ap (pending_of F) e,
              );
              crew = crew';
              size = length-set f.members i (record m { returned = none }) ∙ s.size;
            },
          )

    -- An operation that failed: skipped, interrupted by the end of the run, or recorded.
    settles_error :
        (turn : Turn F (oltp D)) (op : String) (x : Error D) (ws : StatsMap)
        → get_elem? f.collector.workers i ≡ some ws
        → m.returned ≡ some (record { op = op; error = some x })
        → i < n
        → IsKnown ops op
        → (g : Fleet F D) × (settled F D f i m
              (classify F (oltp D) turn op (some (some x, worker_of F D f m ws)))
            ≡ some g)
          × Sound F ops start n g
    unfolding settled classify is_skip is_shutdown_cancellation record_skip with_stats
    settles_error turn op x ws wat e lt known = elim (Bool-cases (is_skipped D x)) [
      | inl yes' ↦ (
        after f i m ws (ops_skipped op ∷ f.metrics),
        rw yes' refl,
        unrecorded-Sound ws (ops_skipped op ∷ f.metrics) wat (λ k. (refl, refl, refl)) quiet,
      )
      | inr no' ↦ elim (Bool-cases (turn.done_after && is_context_error D x)) [
        | inl stop ↦ (
          after f i m ws f.metrics,
          rw (no', stop) refl,
          unrecorded-Sound ws f.metrics wat (λ k. (refl, refl, refl)) quiet,
        )
        | inr go ↦
            let (ws', done, sound) = recorded-Sound turn op (some x) ws wat e lt known in
            (after f i m ws' (log' turn op (some x) ws wat e), rw (no', go, done) refl, sound)
      ]
    ]
      where
        quiet : pending_of F m.returned ≡ 0
        quiet = ap (pending_of F) e ∙ pushes_failed (string_eq.beq op "insert") x

    -- What its worker does with an operation that has returned.
    settles_returned :
        (turn : Turn F (oltp D)) (op : String) (q : Option (Error D)) (ws : StatsMap)
        → get_elem? f.collector.workers i ≡ some ws
        → m.returned ≡ some (record { op = op; error = q })
        → i < n
        → IsKnown ops op
        → (g : Fleet F D) × (settled F D f i m
              (classify F (oltp D) turn op (some (q, worker_of F D f m ws)))
            ≡ some g)
          × Sound F ops start n g
    unfolding settled classify is_skip is_shutdown_cancellation with_stats
    settles_returned turn op none ws wat e lt known =
        let (ws', done, sound) = recorded-Sound turn op none ws wat e lt known in
        (after f i m ws' (log' turn op none ws wat e), rw done refl, sound)
    settles_returned turn op (some x) ws wat e lt known = settles_error turn op x ws wat e lt known

    pub settle_one-Sound :
        (turn : Turn F (oltp D)) (ws : StatsMap) (r : Option (Returned F D))
        → get_elem? f.collector.workers i ≡ some ws
        → m.returned ≡ r
        → (g : Fleet F D) × (settle_one F D f i turn m r ws ≡ some g) × Sound F ops start n g
    unfolding settle_one
    settle_one-Sound turn ws none wat e = (f, refl, s)
    settle_one-Sound turn ws (some r) wat e =
        settles_returned turn r.op r.error ws wat e (omega (arith, get-lt f.members i m at, s.size))
          (subst (Expected F ops) e (All-get (Fit F ops) f.members i m s.crew at).1)

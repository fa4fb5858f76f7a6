-- ===== src/Workload/Fleet/Load.antt =====
-- A run from the set-up on: what the metrics publish is what the statistics say.
use pgstorm.Prelude.{
  ℕ, zero, suc, ◌+◌, ◌%◌, word, true, String, string_eq, some, ◌≡◌, refl, ap, sym, subst, ◌∙◌, List,
  [], ◌∷◌, map, All, All-map, length, arith, pos_part, ok, insert,
}
use pgstorm.Config.{Config, Env}
use pgstorm.Config.Valid.{IsValid}
use pgstorm.Workload.Ring.{SessionRing}
use pgstorm.Workload.Ring.Recent.{Represents}
use pgstorm.Workload.Payload.{Pools}
use pgstorm.Workload.Payload.Stocked.{Stocked}
use pgstorm.Workload.Float.{Float64}
use pgstorm.Workload.Weights.{WeightedOp, op_names, select_op, resolve_weights}
use pgstorm.Workload.Weights.Pick.{All-select_op}
use pgstorm.Workload.Weights.Resolve.{resolved, resolve_weights_iff}
use pgstorm.Workload.Profile.{oltp_ops}
use pgstorm.Workload.Profile.Init.{Affordable, init_oltp, init_oltp-Stocked}
use pgstorm.Workload.Stats.Window.{StatsMap, no_stats, new_worker_stats}
use pgstorm.Workload.Stats.Collector.{finalize}
use pgstorm.Workload.Stats.Readings.{reading_count, reading_errors}
use pgstorm.Workload.Stats.Conserve.{has, measure}
use pgstorm.Workload.Stats.Run.{run, finalize-tally}
use pgstorm.Workload.Stats.Progress.{started-Ready}
use pgstorm.Workload.Templates.{Encoding}
use pgstorm.Workload.Templates.Field.{Laws}
use pgstorm.Workload.Ops.{Driver}
use pgstorm.Workload.Worker.Oltp.{oltp}
use pgstorm.Workload.Worker.Account.{dones, failures, durations}
use pgstorm.Workload.Fleet.{
  Fleet, FleetEvent, Surroundings, new_members, launched, run_load, run_with,
}
use pgstorm.Workload.Fleet.Sound.{pending, IsKnown, Fit, Sound}
use pgstorm.Workload.Fleet.Safe.{run_fleet-Sound}

has-insert_self : (k : String) (m : StatsMap) → has k (insert k no_stats m) ≡ true
unfolding insert
has-insert_self k [] = ground (arith, string_eq.beq_iff k k)
has-insert_self k ((j, s) ∷ m) = ground (arith, string_eq.beq_iff k k, has-insert_self k m)

has-insert : (k j : String) (m : StatsMap) → has k m ≡ true → has k (insert j no_stats m) ≡ true
unfolding insert
has-insert k j [] h = cc
has-insert k j ((i, s) ∷ m) h =
    ground
      (arith, string_eq.beq_iff i j, string_eq.beq_iff j k, string_eq.beq_iff i k, has-insert k j m)

-- A collector knows all operations of its mix.
All-IsKnown : (os : List WeightedOp) → All (λ o. IsKnown os o.name) os
unfolding new_worker_stats op_names
All-IsKnown [] = tt
All-IsKnown (o ∷ os) = (
  has-insert_self o.name (new_worker_stats (op_names os)),
  All-map (λ p h. has-insert p.name o.name (new_worker_stats (op_names os)) h) os (All-IsKnown os),
)

-- Of an accepted mix, every roll selects an operation that the collector knows.
select_op-IsKnown :
    (env : Env) (ops : List WeightedOp)
    → resolve_weights env oltp_ops ≡ ok ops
    → (roll : ℕ) → IsKnown ops (select_op roll ops)
unfolding oltp_ops
select_op-IsKnown env ops h roll =
    let same : ops ≡ map (resolved env) oltp_ops = ((resolve_weights_iff env oltp_ops ops).0 h).0 in
    subst (λ os. IsKnown os (select_op roll os)) (sym same)
      (All-select_op (IsKnown (map (resolved env) oltp_ops)) roll _ _
        (All-IsKnown (map (resolved env) oltp_ops)))

module _ (F : Float64) {D : Driver} where
  module _ (cfg : Config) (ops : List WeightedOp) (ring : SessionRing ℕ) (pools : Pools)
      (sur : Surroundings F D) where
    new_members-Fit :
        (i n : ℕ) → Stocked pools → All (Fit F ops) (new_members F D cfg ring pools sur i n)
    unfolding new_members
    new_members-Fit i zero p = tt
    new_members-Fit i (suc n) p = ((p, tt), new_members-Fit (suc i) n p)

    length-new_members : (i n : ℕ) → length (new_members F D cfg ring pools sur i n) ≡ n
    unfolding new_members
    length-new_members i zero = refl
    length-new_members i (suc n) = ap suc (length-new_members (suc i) n)

    pending-new_members : (i n : ℕ) → pending F (new_members F D cfg ring pools sur i n) ≡ 0
    unfolding new_members
    pending-new_members i zero = refl
    pending-new_members i (suc n) = omega (arith, pending-new_members (suc i) n)

    launched-Sound :
        (now : ℕ)
        → Represents ring []
        → Stocked pools
        → Sound F ops now (pos_part cfg.workers) (launched F D cfg ops ring pools sur now)
    unfolding launched run
    launched-Sound now v p =
        let n = pos_part cfg.workers in
        record {
          events = [];
          ran = refl;
          valid = tt;
          fit = started-Ready F (op_names ops) now n;
          counts = λ k. record { counted = refl; erred = refl; observed = refl };
          recent = [];
          ring = v;
          inserted = omega (arith, pending-new_members 0 n);
          crew = new_members-Fit 0 n p;
          size = length-new_members 0 n;
        }

  -- What the metrics have published of an operation, and totals that say the same.
  pub record Accounts (k : String) (f : Fleet F D) (totals : StatsMap) : Type 0 where
    pub counted :
        measure reading_count k totals % word
        ≡ (dones F (oltp D) k f.metrics + failures F (oltp D) k f.metrics) % word
    pub erred : measure reading_errors k totals % word ≡ failures F (oltp D) k f.metrics % word
    pub observed : durations F (oltp D) k f.metrics ≡ dones F (oltp D) k f.metrics

  pub Sound-Accounts :
      (ops : List WeightedOp) (start n now : ℕ) (f : Fleet F D)
      → Sound F ops start n f
      → (k : String) → IsKnown ops k
      → Accounts k f (finalize F now f.collector).0.0
  Sound-Accounts ops start n now f s k known = record {
    counted =
        finalize-tally F reading_count k (op_names ops) start n now s.events known s.ran
        ∙ ap (λ t. t % word) (s.counts k).counted;
    erred =
        finalize-tally F reading_errors k (op_names ops) start n now s.events known s.ran
        ∙ ap (λ t. t % word) (s.counts k).erred;
    observed = (s.counts k).observed;
  }

  module _ (E : Encoding) (ids : ℕ → ℕ) (env : Env) (cfg : Config) (ops : List WeightedOp)
      (sur : Surroundings F D) (start : ℕ) (es : List (FleetEvent F D)) (laws : Laws E)
      (valid : IsValid cfg) (afford : Affordable E cfg)
      (mix : resolve_weights env oltp_ops ≡ ok ops) where
    pub run_load-Sound :
        (f : Fleet F D) × (run_load F D E ids cfg ops sur start es ≡ some f)
        × Sound F ops start (pos_part cfg.workers) f
    unfolding run_load run_with
    run_load-Sound =
        let (pools, built, ring, stocked, users, actors) =
          init_oltp-Stocked E ids cfg laws valid afford in
        let (f, done, s) =
          run_fleet-Sound F ops start (pos_part cfg.workers) (select_op-IsKnown env ops mix)
            (launched F D cfg ops (init_oltp E ids cfg).0 pools sur start) es
            (launched-Sound cfg ops (init_oltp E ids cfg).0 pools sur start ring stocked) in
        (f, rw built done, s)

    -- With encoders and a `make` that keep their laws, valid settings, sizes that `make` gives and an
    -- accepted mix, whatever the workers draw and the databases answer: every interleaving of the workers' operations, of what the
    -- workers do with their outcomes, and of drains runs on without a panic. After it, for each
    -- operation of the mix, the totals of `Finalize` count as many operations and errors as the
    -- metrics have published (modulo 2^64), and one duration is published for each operation done;
    -- and the ring holds a history with an id for each insert done, those counted that are not yet
    -- published.
    pub run_load-Accounts :
        (now : ℕ)
        → (f : Fleet F D) × (run_load F D E ids cfg ops sur start es ≡ some f)
          × ((k : String) → IsKnown ops k → Accounts k f (finalize F now f.collector).0.0)
          × ((recent : List ℕ) × Represents f.ring recent
              × (length recent ≡ dones F (oltp D) "insert" f.metrics + pending F f.members))
    run_load-Accounts now =
        let (f, done, s) = run_load-Sound in
        (
          f,
          done,
          Sound-Accounts ops start (pos_part cfg.workers) now f s,
          (s.recent, s.ring, s.inserted),
        )

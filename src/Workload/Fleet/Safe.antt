-- ===== src/Workload/Fleet/Safe.antt =====
-- Every interleaving of the workers runs on, and keeps them sound.
use pgstorm.Prelude.{
  ℕ, string_eq, Option, none, some, ◌≡◌, refl, ap, sym, ◌∙◌, List, [], ◌∷◌, ◌++◌, length-set,
  get_elem?, set, arith,
}
use pgstorm.Workload.Rng.{intn, intn-some}
use pgstorm.Workload.Float.{Float64}
use pgstorm.Workload.Weights.{WeightedOp, op_names, select_op}
use pgstorm.Workload.Stats.Window.{StatsMap}
use pgstorm.Workload.Stats.Collector.{StatsCollector, drain}
use pgstorm.Workload.Stats.Readings.{reading_count, reading_errors}
use pgstorm.Workload.Stats.Run.{drains, step, started}
use pgstorm.Workload.Stats.Progress.{Valid, All-get, All-set, All-snoc, step-some}
use pgstorm.Workload.Ops.{Driver, OltpExecutor}
use pgstorm.Workload.Worker.{workers_inc, workers_dec, run_op, ran}
use pgstorm.Workload.Fleet.{
  Returned, Member, Fleet, FleetEvent, executes, settles, worker_of, has_executed, rolled_one,
  execute_one, settle_one, at_worker, fleet_step, run_fleet,
}
use pgstorm.Workload.Fleet.Grows.{execute-Grown}
use pgstorm.Workload.Fleet.Sound.{
  tally-snoc, run-snoc, pending_of, pending-set, IsKnown, Fit, Sound,
}
use pgstorm.Workload.Fleet.Settles.{settle_one-Sound}

module _ (F : Float64) {D : Driver} (ops : List WeightedOp) (start n : ℕ)
    (picks : (roll : ℕ) → IsKnown ops (select_op roll ops)) where
  rolled_one-Sound :
      (f : Fleet F D)
      → Sound F ops start n f
      → (i : ℕ) (m : Member F D) (ws : StatsMap) → get_elem? f.members i ≡ some m
      → m.returned ≡ none
      → (g : Fleet F D) × (rolled_one F D ops f i (worker_of F D f m ws) (intn 100 m.executor.rng)
          ≡ some g)
        × Sound F ops start n g
  unfolding rolled_one has_executed run_op ran
  rolled_one-Sound f s i m ws at idle =
      let (roll, h, drawn, below) = intn-some 100 m.executor.rng (omega arith) in
      let op = select_op roll ops in
      let x : OltpExecutor D = record m.executor { ring = f.ring; rng = h } in
      let (r, t, e, stocked, grown) =
        execute-Grown op x s.recent s.ring (All-get (Fit F ops) f.members i m s.crew at).0 in
      let m' : Member F D = record {
        executor = t;
        returned = some (record { op = op; error = r });
      } in
      (
        record f {
          ring = t.ring;
          members = set f.members i m';
          metrics = workers_dec ∷ workers_inc ∷ f.metrics;
        },
        rw (drawn, e) refl,
        record {
          events = s.events;
          ran = s.ran;
          valid = s.valid;
          fit = s.fit;
          counts = λ k. record {
            counted = (s.counts k).counted;
            erred = (s.counts k).erred;
            observed = (s.counts k).observed;
          };
          recent = grown.recent';
          ring = grown.ring;
          inserted = omega (
            arith,
            s.inserted,
            grown.grown,
            pending-set F f.members i m m' at,
            ap (λ (o : Option (Returned F D)). pending_of F o) idle,
          );
          crew = All-set (Fit F ops) f.members i m' s.crew (stocked, picks roll);
          size = length-set f.members i m' ∙ s.size;
        },
      )

  -- It does not panic, and the workers are sound after it.
  abbrev Goes : Option (Fleet F D) → Type 0
  Goes o = (g : Fleet F D) × (o ≡ some g) × Sound F ops start n g

  execute_one-Sound :
      (f : Fleet F D)
      → Sound F ops start n f
      → (i : ℕ) (m : Member F D) (r : Option (Returned F D)) (ws : StatsMap)
      → get_elem? f.members i ≡ some m
      → m.returned ≡ r
      → Goes (execute_one F D ops f i m r ws)
  unfolding execute_one
  execute_one-Sound f s i m (some r) ws at e = (f, refl, s)
  execute_one-Sound f s i m none ws at e = rolled_one-Sound f s i m ws at e

  at_worker-Sound :
      (next : Member F D → StatsMap → Option (Fleet F D)) (f : Fleet F D)
      → Sound F ops start n f
      → (a : Option (Member F D)) (b : Option StatsMap)
      → ((m : Member F D) (ws : StatsMap) → a ≡ some m → b ≡ some ws → Goes (next m ws))
      → Goes (at_worker F D next f a b)
  unfolding at_worker
  at_worker-Sound next f s (some m) (some ws) h = h m ws refl refl
  at_worker-Sound next f s (some m) none h = (f, refl, s)
  at_worker-Sound next f s none b h = (f, refl, s)

  drain-Sound :
      (f : Fleet F D) (now : ℕ)
      → Sound F ops start n f
      → Sound F ops start n (record f { collector = (drain F now f.collector).1 })
  drain-Sound f now s =
      let event = drains now in
      let (d, one, fit) = step-some F (op_names ops) n f.collector event s.fit tt in
      let same : (drain F now f.collector).1 ≡ d = drained d one in
      record {
        events = s.events ++ (event ∷ []);
        ran =
            run-snoc F (started F (op_names ops) start n) f.collector _ s.events event s.ran
              (one ∙ ap some (sym same));
        valid = All-snoc F (Valid F (op_names ops) n) s.events event s.valid tt;
        fit = rw same fit;
        counts = λ k. record {
          counted =
              omega (arith, (s.counts k).counted, tally-snoc F reading_count k s.events event);
          erred = omega (arith, (s.counts k).erred, tally-snoc F reading_errors k s.events event);
          observed = (s.counts k).observed;
        };
        recent = s.recent;
        ring = s.ring;
        inserted = s.inserted;
        crew = s.crew;
        size = s.size;
      }
    where
      drained :
          (d : StatsCollector F)
          → step F f.collector (drains now) ≡ some d
          → (drain F now f.collector).1 ≡ d
      drained d one = unfold step in cc

  fleet_step-Sound :
      (f : Fleet F D) → Sound F ops start n f → (e : FleetEvent F D) → Goes (fleet_step F D ops f e)
  unfolding fleet_step
  fleet_step-Sound f s (executes i) =
      at_worker-Sound (λ m ws. execute_one F D ops f i m m.returned ws) f s _ _
        (λ m ws at wat. execute_one-Sound f s i m m.returned ws at refl)
  fleet_step-Sound f s (settles i turn) =
      at_worker-Sound (λ m ws. settle_one F D f i turn m m.returned ws) f s _ _
        (λ m ws at wat. settle_one-Sound F ops start n f s i m at turn ws m.returned wat refl)
  fleet_step-Sound f s (FleetEvent.drains now) =
      (record f { collector = (drain F now f.collector).1 }, refl, drain-Sound f now s)

  pub run_fleet-Sound :
      (f : Fleet F D) (es : List (FleetEvent F D))
      → Sound F ops start n f
      → (g : Fleet F D) × (run_fleet F D ops f es ≡ some g) × Sound F ops start n g
  unfolding run_fleet
  run_fleet-Sound f [] s = (f, refl, s)
  run_fleet-Sound f (e ∷ es) s =
      let (g, one, s') = fleet_step-Sound f s e in
      let (h, rest, s'') = run_fleet-Sound g es s' in (h, rw one rest, s'')

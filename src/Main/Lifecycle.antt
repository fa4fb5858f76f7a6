-- ===== src/Main/Lifecycle.antt =====
-- What the life of the process goes through.
use pgstorm.Prelude.{
  ℕ, ◌≤◌, ◌%◌, ℤ, pos, negsuc, ◌≤ℤ◌, word, is_positive, true, String, string_eq, ◌≡◌, refl, subst,
  sym, ◌⊎◌, inl, inr, Bool-cases, Option, none, some, ap, ◌∙◌, lookup, List, [], ◌∷◌, ◌++◌, map,
  All, Result, ok, err, ◌>>=◌, ◌>>◌, err-ne-ok, arith,
}
use pgstorm.Config.{Config, load}
use pgstorm.Config.Valid.{IsValid, load-iff_IsValid}
use pgstorm.Db.{
  Outcome, done, no_connection, lock_failed, tables_failed, indexes_failed, wait_cancelled,
  still_waiting, migrate_with_lock,
}
use pgstorm.Db.Pool.{PoolConfig, new_pool}
use pgstorm.Metrics.Registry.Start.{Foreign, own_names, register_metrics-own}
use pgstorm.Workload.Float.{Float64}
use pgstorm.Workload.Weights.{resolve_weights, op_names}
use mathlib.Core.Option
use pgstorm.Workload.Templates.{Encoding}
use pgstorm.Workload.Templates.Field.{Laws}
use pgstorm.Workload.Profile.Init.{Affordable, init_oltp, init_oltp-Stocked}
use pgstorm.Workload.Profile.{
  Profile, found_profile, oltp_profile, get_profile, registered_profiles,
}
use pgstorm.Workload.Stats.Collector.{StatsCollector, finalize}
use pgstorm.Workload.Stats.Run.{run, started, none-ne-some}
use pgstorm.Workload.Stats.Sums.{series_ops}
use pgstorm.Workload.Stats.Progress.{Valid}
use pgstorm.Workload.RunResult.{RunResult, build_run_result}
use pgstorm.Workload.RunResult.Reports.{Reports}
use pgstorm.Workload.RunResult.Timeseries.{final_result, final_result-Reports}
use pgstorm.Main.{
  World, seconds_of, upto, map_err, Fatal, load_config, select_profile, resolve_op_weights,
  create_pool, Happening, fatal, panicked, init_profile, serving, measured_at_start, summary_loop,
  table_stats_loop, pg_stats_loop, index_stats_loop, worker_started, ready, stopping,
  workers_stopped, result_written, server_shut_down, Plan, migrated, initialised, plan,
  size_measured, settings_read, loops, workers_of, stopped_by, meta_of, write_result, stop, work,
  launch, live, main,
}

-- The longest interval whose nanoseconds fit an `int64`.
abbrev pub max_seconds : ℕ
max_seconds = 9223372036

ticks-positive :
    (secs : ℤ) → pos 1 ≤ℤ secs → secs ≤ℤ pos max_seconds → is_positive (seconds_of secs) ≡ true
unfolding seconds_of
ticks-positive (pos n) low high = ground arith
ticks-positive (negsuc n) low high = absurd (omega arith)

-- There is one profile to select.
only_oltp :
    (E : Encoding) (uuids : ℕ → ℕ) (name : String) (p : Profile)
    → get_profile name (registered_profiles E uuids) ≡ ok p
    → p ≡ oltp_profile E uuids
unfolding get_profile registered_profiles found_profile lookup
only_oltp E uuids name p h = elim (Bool-cases (string_eq.beq "oltp-jsonb" name)) [
  | inl e ↦ let same : ok (oltp_profile E uuids) ≡ ok p = rw e at h in cc
  | inr e ↦ err-ne-ok _ (rw e at h)
]

map-none : {A B : Type 0} (b : B) (o : Option A) → Option.map (λ a. b) o ≡ none → o ≡ none
map-none b none h = refl
map-none b (some a) h = absurd (none-ne-some (sym h))

module _ (F : Float64) (w : World F) where
  -- What has been done before a process of this plan is launched.
  pub record Launched (p : Plan F w) : Type 1 where
    pub loaded : load w.env ≡ ok p.cfg
    pub valid : IsValid p.cfg
    pub selected : get_profile p.cfg.profile (registered_profiles w.encoding w.ids) ≡ ok p.profile
    pub mix : resolve_weights w.env p.profile.ops ≡ ok p.ops
    pub connected : (c : PoolConfig) × ((new_pool w.pgx p.cfg).0 ≡ ok c)
    pub schema :
        (migrate_with_lock w.server p.profile.schema p.cfg.create_indexes w.stops []).0 ≡ done

  load-valid : (cfg : Config) → load w.env ≡ ok cfg → IsValid cfg
  load-valid cfg h =
      let both = (load-iff_IsValid w.env cfg).0 h in subst IsValid (sym both.0) both.1

  migrated-eq-ok : (o : Outcome w.server) {u : Unit {0}} → migrated F w o ≡ ok u → o ≡ done
  unfolding migrated
  migrated-eq-ok done h = refl
  migrated-eq-ok (no_connection e) h = err-ne-ok _ h
  migrated-eq-ok (lock_failed e) h = err-ne-ok _ h
  migrated-eq-ok (tables_failed e) h = err-ne-ok _ h
  migrated-eq-ok (indexes_failed e) h = err-ne-ok _ h
  migrated-eq-ok wait_cancelled h = err-ne-ok _ h
  migrated-eq-ok still_waiting h = err-ne-ok _ h

  -- A plan that was made is one to launch.
  abbrev Planned : Result (Fatal F w) (Plan F w) → Type 1
  Planned (ok p) = Launched p
  Planned (err e) = Unit

  after :
      {E A : Type 0} (f : E → Fatal F w) (r : Result E A) (next : A → Result (Fatal F w) (Plan F w))
      → ((a : A) → r ≡ ok a → Planned (next a))
      → Planned (map_err f r >>= next)
  after f (ok a) next h = h a refl
  after f (err e) next h = tt

  after_check :
      (r : Result (Fatal F w) (Unit {0})) (next : Result (Fatal F w) (Plan F w))
      → (r ≡ ok tt → Planned next)
      → Planned (r >> next)
  after_check (ok tt) next h = h refl
  after_check (err e) next h = tt

  plan-Planned : Planned (plan F w)
  unfolding plan
  plan-Planned = after load_config (load w.env) _ (λ cfg loaded.
      after select_profile (get_profile cfg.profile (registered_profiles w.encoding w.ids)) _
        (λ profile selected.
          after resolve_op_weights (resolve_weights w.env profile.ops) _ (λ ops mix.
            after create_pool (new_pool w.pgx cfg).0 _ (λ c connected.
              let p : Plan F w = record { cfg = cfg; profile = profile; ops = ops } in
              after_check
                (migrated F w
                  (migrate_with_lock w.server profile.schema cfg.create_indexes w.stops []).0)
                (ok p)
                (λ schema. record {
                  loaded = loaded;
                  valid = load-valid cfg loaded;
                  selected = selected;
                  mix = mix;
                  connected = (c, connected);
                  schema = migrated-eq-ok _ schema;
                })))))

  -- What a result that is written says, after a run that left this collector.
  abbrev pub Written : Plan F w → StatsCollector F → List (Happening F w) → Type 0
  Written p c rest =
      ((p.cfg.result_json_path ≡ "") × (rest ≡ []))
      ⊎ ((r : RunResult F) × (rest ≡ result_written p.cfg.result_json_path r ∷ [])
          × Reports F (finalize F w.drain_time c).0.0 r
          × (r.stopped_by ≡ stopped_by F w p.cfg)
          × (series_ops F r.timeseries % word ≡ r.totals.ops % word))

  -- Neither a worker's start nor readiness.
  abbrev pub Preparing : Happening F w → Type 0
  Preparing (serving names) = Unit
  Preparing (measured_at_start size settings) = Unit
  Preparing summary_loop = Unit
  Preparing table_stats_loop = Unit
  Preparing pg_stats_loop = Unit
  Preparing index_stats_loop = Unit
  Preparing h = ⊥

  -- The lives of a process: it stops with an error before anything is started; or it is launched,
  -- prepares, starts its workers, one for each number below WORKERS in order, is ready, stops, waits
  -- for the workers, writes its result if one is asked for, and shuts its server down.
  pub data Lives : List (Happening F w) → Type 1 where
    failed : (e : Fatal F w) → Lives (fatal e ∷ [])
    ran :
        (p : Plan F w) (before rest : List (Happening F w)) (c : StatsCollector F)
        → Launched p
        → All Preparing before
        → 1 ≤ workers_of F w p.cfg
        → Written p c rest
        → Lives (
            before
            ++ (map worker_started (upto 0 (workers_of F w p.cfg))
                ++ (ready
                    ∷ stopping (stopped_by F w p.cfg)
                    ∷ workers_stopped
                    ∷ (rest ++ (server_shut_down ∷ [])))))

  loops-Preparing : (cfg : Config) → All Preparing (loops F w cfg)
  unfolding loops
  loops-Preparing cfg = elim (Bool-cases cfg.create_indexes) [
    | inl e ↦ rw e (tt, (tt, (tt, (tt, tt))))
    | inr e ↦ rw e (tt, (tt, (tt, tt)))
  ]

  -- `Init` panics on the settings.
  abbrev pub Panics : Config → Type 0
  Panics cfg = (load w.env ≡ ok cfg) × ((init_oltp w.encoding w.ids cfg).1 ≡ none)

  module _ (foreign : All Foreign w.registered)
      (intervals : (cfg : Config)
        → load w.env ≡ ok cfg
        → (cfg.summary_interval_secs ≤ℤ pos max_seconds)
          × (cfg.index_stats_interval_secs ≤ℤ pos max_seconds))
      (history : (ops : List String) (n : ℕ) → All (Valid F ops n) (w.history ops n)) where
    write_result-Written :
        (p : Plan F w)
        → (c : StatsCollector F) × (run F
              (started F (op_names p.ops) w.start_time (workers_of F w p.cfg))
              (w.history (op_names p.ops) (workers_of F w p.cfg))
            ≡ some c)
          × Written p c (write_result F w p c)
    unfolding write_result final_result build_run_result meta_of
    write_result-Written p =
        let names = op_names p.ops in
        let n = workers_of F w p.cfg in
        let (c, end, reports, sums) =
          final_result-Reports F names w.start_time n w.drain_time w.end_time (w.history names n)
            p.cfg p.ops (meta_of F w p.cfg) (history names n) in
        elim (Bool-cases (string_eq.beq p.cfg.result_json_path "")) [
          | inl e ↦ (c, end, inl ((string_eq.beq_iff p.cfg.result_json_path "").0 e, rw e refl))
          | inr e ↦ (
            c,
            end,
            inr (
              final_result F c w.drain_time w.end_time p.cfg p.ops (meta_of F w p.cfg),
              rw e refl,
              reports,
              refl,
              sums,
            ),
          )
        ]

    one_worker : (p : Plan F w) → Launched p → 1 ≤ workers_of F w p.cfg
    unfolding workers_of
    one_worker p l = omega (arith, l.valid.workers)

    launch-Lives :
        (p : Plan F w) → Launched p → (names : List String) → Lives (launch F w p (some names))
    unfolding launch work stop
    launch-Lives p l names =
        let (c, end, written) = write_result-Written p in
        let v = l.valid in
        let most = intervals p.cfg l.loaded in
        let summary = ticks-positive p.cfg.summary_interval_secs v.summary most.0 in
        let index = ticks-positive p.cfg.index_stats_interval_secs v.index_stats most.1 in
        rw (summary, index, end)
          (ran p
            (serving names
              ∷ measured_at_start (size_measured F w p.cfg) (settings_read F w p.cfg)
              ∷ loops F w p.cfg)
            (write_result F w p c) c l (tt, (tt, loops-Preparing p.cfg)) (one_worker p l) written)

    -- What follows `Init`, if it does not panic.
    initialised-Lives :
        (p : Plan F w)
        → Launched p
        → (o : Option (Option String)) → (o ≡ none) ⊎ Lives (initialised F w p o)
    unfolding initialised
    initialised-Lives p l none = inl refl
    initialised-Lives p l (some (some e)) = inr (failed (init_profile e))
    initialised-Lives p l (some none) = inr (
        subst (λ o. Lives (launch F w p o))
          (sym (register_metrics-own p.cfg.create_indexes w.registered foreign))
          (launch-Lives p l (own_names p.cfg.create_indexes ++ w.registered)))

    init-none :
        (p : Plan F w)
        → Launched p
        → p.profile.init p.cfg ≡ none
        → (init_oltp w.encoding w.ids p.cfg).1 ≡ none
    unfolding oltp_profile
    init-none p l e = map-none none (init_oltp w.encoding w.ids p.cfg).1 (
        ap (λ q. q.init p.cfg) (sym (only_oltp w.encoding w.ids p.cfg.profile p.profile l.selected))
        ∙ e)

    live-Lives :
        (r : Result (Fatal F w) (Plan F w))
        → Planned r
        → ((cfg : Config) × Panics cfg × (live F w r ≡ panicked ∷ [])) ⊎ Lives (live F w r)
    unfolding live initialised
    live-Lives (err e) g = inr (failed e)
    live-Lives (ok p) l = elim (initialised-Lives p l (p.profile.init p.cfg)) [
      | inl e ↦ inl (p.cfg, (l.loaded, init-none p l e), rw e refl)
      | inr life ↦ inr life
    ]

    pub main-cases : ((cfg : Config) × Panics cfg × (main F w ≡ panicked ∷ [])) ⊎ Lives (main F w)
    unfolding main
    main-cases = live-Lives (plan F w) plan-Planned

    -- When no metric of the process is registered before, the intervals fit their nanoseconds into
    -- an `int64`, workers record under their own number and names of the mix only, the encoders and
    -- `make` keep their laws, and `make` gives the sizes of the settings: whatever the environment,
    -- the driver, the server and the measurements answer, neither `Init` nor the registration, the
    -- tickers or the workers' records panic. The process ends with an error before it serves
    -- anything; or its settings are valid, its mix is accepted, its pool is open and its schema is
    -- there, and it starts its workers, at least one, in order, is ready only then, stops, waits for
    -- the workers, writes the result exactly if a path is set, and shuts the server down. The result
    -- reports the totals of the statistics after all that was recorded, its series adds up to its
    -- total, and it says how the run was stopped.
    pub main-Lives :
        Laws w.encoding
        → ((cfg : Config) → load w.env ≡ ok cfg → Affordable w.encoding cfg)
        → Lives (main F w)
    main-Lives laws afford = elim main-cases [
      | inl (cfg, (loaded, none_built), e) ↦
          let (pools, built, ring, stocked, users, actors) =
            init_oltp-Stocked w.encoding w.ids cfg laws (load-valid cfg loaded)
              (afford cfg loaded) in
          absurd (none-ne-some (sym none_built ∙ built))
      | inr life ↦ life
    ]

-- ===== src/Main/Probes.antt =====
-- When the readiness probe succeeds.
use pgstorm.Prelude.{
  pos, ◌≤ℤ◌, String, ok, ◌⊎◌, ℕ, zero, suc, ◌≤◌, true, false, ◌≡◌, refl, ap, ap₂, All-map, sym,
  subst, ◌∙◌, List, [], ◌∷◌, ◌++◌, map, All, Bool-cases, inl, inr,
}
use mathlib.Core.List.{append_assoc}
use pgstorm.Workload.Float.{Float64}
use pgstorm.Main.{
  World, upto, Happening, panicked, fatal, worker_started, ready, Plan, workers_of, main, is_ready,
  ready_after, readyz,
}
use pgstorm.Config.{Config, load}
use pgstorm.Metrics.Registry.Start.{Foreign}
use pgstorm.Workload.Stats.Progress.{Valid}
use pgstorm.Main.Lifecycle.{
  max_seconds, Launched, Preparing, Lives, failed, ran, Panics, main-cases,
}

module _ (F : Float64) (w : World F) where
  abbrev pub NotReady : Happening F w → Type 0
  NotReady h = is_ready F w h ≡ false

  Preparing-NotReady : (h : Happening F w) → Preparing F w h → NotReady h
  Preparing-NotReady ready p = elim p [ ]
  Preparing-NotReady h p = refl

  -- A prefix of a life that is ready has passed the readiness.
  ready_after-split :
      (xs rest before after : List (Happening F w))
      → All NotReady xs
      → xs ++ (ready ∷ rest) ≡ before ++ after
      → ready_after F w before ≡ true
      → (post : List (Happening F w)) × (before ≡ xs ++ (ready ∷ post))
  unfolding ready_after
  ready_after-split xs rest [] after n e r = cc
  ready_after-split [] rest (b ∷ before) after n e r =
      let same : b ≡ ready = cc in (before, ap (λ h. h ∷ before) same)
  ready_after-split (x ∷ xs) rest (b ∷ before) after n e r =
      let same : b ≡ x = cc in
      let tails : (xs ++ (ready ∷ rest)) ≡ (before ++ after) = cc in
      let still : ready_after F w before ≡ true = rw (subst NotReady (sym same) n.0) at r in
      let (post, split) = ready_after-split xs rest before after n.1 tails still in
      (post, ap₂ (λ h t. h ∷ t) same split)

  -- A life that is never ready has no ready prefix.
  ready_after-quiet :
      (xs before after : List (Happening F w))
      → All NotReady xs
      → xs ≡ before ++ after
      → ¬ (ready_after F w before ≡ true)
  unfolding ready_after
  ready_after-quiet xs [] after n e r = cc
  ready_after-quiet [] (b ∷ before) after n e r = cc
  ready_after-quiet (x ∷ xs) (b ∷ before) after n e r =
      let same : b ≡ x = cc in
      let tails : xs ≡ (before ++ after) = cc in
      ready_after-quiet xs before after n.1 tails (rw (subst NotReady (sym same) n.0) at r)

  -- The workers' starts, in order.
  abbrev pub starts : Plan F w → List (Happening F w)
  starts p = map worker_started (upto 0 (workers_of F w p.cfg))

  starts-NotReady : (i n : ℕ) → All NotReady (map worker_started (upto i n))
  starts-NotReady i zero = tt
  starts-NotReady i (suc n) = (refl, starts-NotReady (suc i) n)

  All-append :
      (xs ys : List (Happening F w)) → All NotReady xs → All NotReady ys → All NotReady (xs ++ ys)
  All-append [] ys p q = q
  All-append (x ∷ xs) ys p q = (p.0, All-append xs ys p.1 q)

  -- What has happened when the probe succeeds.
  pub record Serves (before : List (Happening F w)) : Type 1 where
    pub plan : Plan F w
    pub launched : Launched F w plan
    pub prepared : List (Happening F w)
    pub preparing : All (Preparing F w) prepared
    pub workers : 1 ≤ workers_of F w plan.cfg
    pub later : List (Happening F w)
    pub passed : before ≡ prepared ++ (starts plan ++ (ready ∷ later))

  Lives-Serves :
      (life before after : List (Happening F w))
      → Lives F w life
      → life ≡ before ++ after
      → ready_after F w before ≡ true
      → Serves before
  Lives-Serves _ before after (failed e) split r =
      absurd (ready_after-quiet (fatal e ∷ []) before after (refl, tt) split r)
  Lives-Serves _ before after (ran p prepared rest c launched preparing some_worker written) split
        r =
      let first = prepared ++ starts p in
      let quiet =
        All-append prepared (starts p) (All-map Preparing-NotReady prepared preparing)
          (starts-NotReady 0 (workers_of F w p.cfg)) in
      let (post, passed) =
        ready_after-split first _ before after quiet (append_assoc prepared (starts p) _ ∙ split)
          r in
      record {
        plan = p;
        launched = launched;
        prepared = prepared;
        preparing = preparing;
        workers = some_worker;
        later = post;
        passed = passed ∙ append_assoc prepared (starts p) (ready ∷ post);
      }

  never_ready : (hs : List (Happening F w)) → ready_after F w hs ≡ false → All NotReady hs
  unfolding ready_after
  never_ready [] e = tt
  never_ready (h ∷ hs) e = elim (Bool-cases (is_ready F w h)) [
    | inl r ↦ cc (rw r at e)
    | inr r ↦ (r, never_ready hs (rw r at e))
  ]

  -- When no metric of the process is registered before, the intervals fit their nanoseconds into an
  -- `int64` and workers record under their own number and names of the mix only, at every moment of the process's life: the readiness probe
  -- is answered with 200, and the settings are valid, the mix is accepted, the pool is open and the
  -- schema is there, and after the preparations all workers have been started, at least one, in
  -- order, before the process got ready; or it is answered with 503, and the process has never been
  -- ready.
  pub readyz-Serves :
      (before after : List (Happening F w))
      → All Foreign w.registered
      → ((cfg : Config)
          → load w.env ≡ ok cfg
          → (cfg.summary_interval_secs ≤ℤ pos max_seconds)
            × (cfg.index_stats_interval_secs ≤ℤ pos max_seconds))
      → ((ops : List String) (n : ℕ) → All (Valid F ops n) (w.history ops n))
      → main F w ≡ before ++ after
      → ((readyz (ready_after F w before) ≡ 200) × Serves before)
        ⊎ ((readyz (ready_after F w before) ≡ 503) × All NotReady before)
  unfolding readyz
  readyz-Serves before after foreign intervals history split =
      elim (Bool-cases (ready_after F w before)) [
        | inl r ↦ inl (rw r refl, served (main-cases F w foreign intervals history) r)
        | inr r ↦ inr (rw r refl, never_ready before r)
      ]
    where
      served :
          ((cfg : Config) × Panics F w cfg × (main F w ≡ panicked ∷ [])) ⊎ Lives F w (main F w)
          → ready_after F w before ≡ true
          → Serves before
      served (inl (cfg, panics, e)) r =
          absurd (ready_after-quiet (panicked ∷ []) before after (refl, tt) (sym e ∙ split) r)
      served (inr life) r = Lives-Serves (main F w) before after life split r

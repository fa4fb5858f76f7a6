-- ===== src/Main/Tests.antt =====
-- A process with its default settings and a path for its result, against a server that lets it lead.
use pgstorm.Prelude.{
  ℕ, zero, suc, ◌^◌, ◌*◌, pos, ◌≤ℤ◌, true, false, String, string_eq, ◌≡◌, refl, subst, sym, none,
  ◌⊎◌, List, [], ◌∷◌, All, insert, if◌then◌else◌, ok, err, arith,
}
use pgstorm.Config.{Env, Config, load, read_config}
use pgstorm.Config.Valid.{load-iff_IsValid}
use pgstorm.Db.{Server}
use pgstorm.Db.Pool.{Pgx}
use pgstorm.Workload.Templates.Tests.{texts, texts-Laws, ids}
use pgstorm.Workload.Profile.Init.{Affordable}
use pgstorm.Workload.Float.{exact}
use pgstorm.Workload.Stats.Window.{OpStats, StatsMap, new_worker_stats, no_stats}
use pgstorm.Workload.Stats.Conserve.{has}
use pgstorm.Workload.Stats.Run.{Event, records, drains}
use pgstorm.Workload.Stats.Progress.{Valid}
use pgstorm.Main.{World, main, ready_after, readyz}
use mathlib.Core.List.{append-nil}
use pgstorm.Main.Probes.{NotReady, Serves, readyz-Serves}
use pgstorm.Main.Lifecycle.{max_seconds, Lives, main-Lives}

abbrev env : Env
env name = if string_eq.beq name "RESULT_JSON_PATH" then "/tmp/result.json" else ""

abbrev driver : Pgx
driver = record {
  Error = String;
  parses = (λ dsn. none);
  creates = (λ c. none);
  pings = (λ c. none);
}

abbrev leader : Server
leader = record {
  Error = String;
  failure = (λ h. none);
  grants = (λ h. true);
  found = (λ h. []);
  has_index = (λ h. false);
}

-- The first worker runs the first operation once, before a summary.
abbrev history : List String → ℕ → List (Event exact)
history [] n = drains (30 * 10 ^ 9) ∷ []
history (op ∷ ops) zero = []
history (op ∷ ops) (suc n) = records 0 op 5000 false ∷ drains (30 * 10 ^ 9) ∷ []

abbrev world : World exact
world = record {
  env = env;
  encoding = texts;
  ids = ids;
  pgx = driver;
  server = leader;
  stops = [];
  registered = "go_goroutines" ∷ [];
  Error = String;
  size_at_start = err "permission denied";
  settings = ok ([], none);
  size_at_end = err "permission denied";
  history = history;
  signal_first = true;
  start_time = 0;
  drain_time = 40 * 10 ^ 9;
  end_time = 41 * 10 ^ 9;
}

has-insert : (op : String) (s : OpStats) (m : StatsMap) → has op (insert op s m) ≡ true
unfolding insert
has-insert op s [] = ground (arith, string_eq.beq_iff op op)
has-insert op s ((j, r) ∷ m) =
    ground (arith, string_eq.beq_iff op op, string_eq.beq_iff j op, has-insert op s m)

history-Valid : (ops : List String) (n : ℕ) → All (Valid exact ops n) (history ops n)
unfolding new_worker_stats
history-Valid [] n = (tt, tt)
history-Valid (op ∷ ops) zero = tt
history-Valid (op ∷ ops) (suc n) =
    ((omega arith, has-insert op no_stats (new_worker_stats ops)), (tt, tt))

short_intervals :
    (cfg : Config)
    → load env ≡ ok cfg
    → (cfg.summary_interval_secs ≤ℤ pos max_seconds)
      × (cfg.index_stats_interval_secs ≤ℤ pos max_seconds)
unfolding read_config
short_intervals cfg h =
    subst
      (λ c.
        (c.summary_interval_secs ≤ℤ pos max_seconds)
        × (c.index_stats_interval_secs ≤ℤ pos max_seconds))
      (sym ((load-iff_IsValid env cfg).0 h).0) (omega arith, omega arith)

affordable : (cfg : Config) → load env ≡ ok cfg → Affordable texts cfg
unfolding read_config
affordable cfg h = subst (Affordable texts) (sym ((load-iff_IsValid env cfg).0 h).0) (record {
  ring = omega arith;
  users = omega arith;
  actors = omega arith;
  payload = omega arith;
})

main-Lives_example : Lives exact world (main exact world)
main-Lives_example =
    main-Lives exact world (refl, tt) short_intervals history-Valid texts-Laws affordable

readyz-Serves_example :
    ((readyz (ready_after exact world (main exact world)) ≡ 200)
      × Serves exact world (main exact world))
    ⊎ ((readyz (ready_after exact world (main exact world)) ≡ 503)
        × All (NotReady exact world) (main exact world))
readyz-Serves_example =
    readyz-Serves exact world (main exact world) [] (refl, tt) short_intervals history-Valid
      (sym (append-nil (main exact world)))

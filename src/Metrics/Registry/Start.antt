-- ===== src/Metrics/Registry/Start.antt =====
-- The start registers every metric that is published, and never panics.
use pgstorm.Prelude.{
  ℕ, Bool, true, false, not, ◌&&◌, ◌||◌, String, string_eq, ◌≡◌, refl, ap, ◌∙◌, some, List, [], ◌∷◌,
  ◌++◌, map, All, Bool-cases, inl, inr, codes, ◌==◌, if◌then◌else◌, arith,
}
use mathlib.Core.Option
use pgstorm.Db.{contains}
use pgstorm.Workload.Float.{Float64}
use pgstorm.Metrics.IndexStats.{
  Metric, index_size_bytes, index_scans_total, table_size_bytes, table_live_tuples,
  table_dead_tuples, table_mod_since_analyze, table_autovacuum_total, table_autoanalyze_total,
}
use pgstorm.Metrics.PgStats.{
  Counter, checkpoints_timed, checkpoints_req, buffers_checkpoint, buffers_clean, buffers_backend,
  checkpoint_write_seconds, checkpoint_sync_seconds, wal_bytes_total, wal_records_total,
  wal_fpi_total, wal_buffers_full_total, Publish, add, reset_waits, set_wait,
}
use pgstorm.Workload.Worker.{
  Executor, MetricCall, ops_total, op_duration, ops_skipped, workers_inc, workers_dec,
}
use pgstorm.Metrics.Registry.{
  call_desc, publish_desc, Desc, desc, op_metrics, metric_desc, counter_desc, wait_events_active,
  table_metrics, index_metrics, pg_metrics, must_register, register_metrics,
}
use pgstorm.Metrics.PoolCollector.{new_pool_collector, describe, collect_pool, PoolStats}

abbrev starts_with : List ℕ → List ℕ → Bool
starts_with [] ds = true
starts_with (c ∷ cs) [] = false
starts_with (c ∷ cs) (d ∷ ds) = (c == d) && starts_with cs ds

-- A name in the namespace of the process.
abbrev pub is_own : String → Bool
is_own name = starts_with (codes "pgstorm_") (codes name)

abbrev pub Foreign : String → Type 0
Foreign name = is_own name ≡ false

contains-Foreign :
    (name : String) (names : List String)
    → is_own name ≡ true
    → All Foreign names
    → contains name names ≡ false
contains-Foreign name [] own f = refl
contains-Foreign name (x ∷ xs) own f = elim (Bool-cases (string_eq.beq x name)) [
  | inl e ↦
      let eq = (string_eq.beq_iff x name).0 e in
      let clash : is_own x ≡ true = ap is_own eq ∙ own in absurd (ground (arith, f.0))
  | inr e ↦ rw e (contains-Foreign name xs own f.1)
]

contains-append-Foreign :
    (name : String) (own foreign : List String)
    → is_own name ≡ true
    → All Foreign foreign
    → contains name (own ++ foreign) ≡ contains name own
contains-append-Foreign name [] foreign o f = contains-Foreign name foreign o f
contains-append-Foreign name (x ∷ xs) foreign o f =
    ap (λ b. if string_eq.beq x name then true else b) (contains-append-Foreign name xs foreign o f)

-- Whether these can be registered after the own names: a test on closed lists.
abbrev registers : List Desc → List String → Bool
registers [] own = true
registers (d ∷ ds) own = is_own d.name && (not (contains d.name own) && registers ds (d.name ∷ own))

abbrev after : List Desc → List String → List String
after [] own = own
after (d ∷ ds) own = after ds (d.name ∷ own)

registers-split :
    (d : Desc) (ds : List Desc) (own : List String)
    → registers (d ∷ ds) own ≡ true
    → (is_own d.name ≡ true) × (contains d.name own ≡ false) × (registers ds (d.name ∷ own) ≡ true)
registers-split d ds own h = ground arith

must_register-after :
    (ds : List Desc) (own foreign : List String)
    → registers ds own ≡ true
    → All Foreign foreign
    → must_register ds (own ++ foreign) ≡ some (after ds own ++ foreign)
unfolding must_register
must_register-after [] own foreign h f = refl
must_register-after (d ∷ ds) own foreign h f =
    let (o, fresh, rest) = registers-split d ds own h in
    rw (contains-append-Foreign d.name own foreign o f, fresh)
      (must_register-after ds (d.name ∷ own) foreign rest f)

-- The own names after each step of the start.
abbrev with_ops : List String
with_ops = after op_metrics []

abbrev with_pool : List String
with_pool = after (describe new_pool_collector) with_ops

abbrev with_tables : List String
with_tables = after table_metrics with_pool

abbrev with_pg : List String
with_pg = after pg_metrics with_tables

abbrev pub own_names : Bool → List String
own_names create_indexes = if create_indexes then after index_metrics with_pg else with_pg

all-registers :
    (registers op_metrics [] ≡ true)
    × (registers (describe new_pool_collector) with_ops ≡ true)
    × (registers table_metrics with_pool ≡ true)
    × (registers pg_metrics with_tables ≡ true)
    × (registers index_metrics with_pg ≡ true)
unfolding desc op_metrics describe new_pool_collector table_metrics pg_metrics index_metrics
    metric_desc counter_desc wait_events_active
all-registers = (refl, refl, refl, refl, refl)

pub register_metrics-own :
    (create_indexes : Bool) (foreign : List String)
    → All Foreign foreign
    → register_metrics (describe new_pool_collector) create_indexes foreign
      ≡ some (own_names create_indexes ++ foreign)
unfolding register_metrics Option.bind
register_metrics-own create_indexes foreign f =
    let (ops, pool, tables, pg, indexes) = all-registers in
    rw
      (
        must_register-after op_metrics [] foreign ops f,
        must_register-after (describe new_pool_collector) with_ops foreign pool f,
        must_register-after table_metrics with_pool foreign tables f,
        must_register-after pg_metrics with_tables foreign pg f,
        must_register-after index_metrics with_pg foreign indexes f,
      )
      (rest create_indexes)
  where
    rest :
        (b : Bool)
        → (if b then some (after index_metrics with_pg ++ foreign) else some (with_pg ++ foreign))
          ≡ some (own_names b ++ foreign)
    rest true = refl
    rest false = refl

-- The metrics that exist only with indexes.
abbrev pub is_index_metric : Metric → Bool
is_index_metric (index_size_bytes index table) = true
is_index_metric (index_scans_total index table) = true
is_index_metric m = false

-- A published name is registered if it is one of the own names.
found :
    (name : String) (create_indexes : Bool) (foreign : List String)
    → is_own name ≡ true
    → All Foreign foreign
    → contains name (own_names create_indexes ++ foreign) ≡ contains name (own_names create_indexes)
found name create_indexes foreign own f =
    contains-append-Foreign name (own_names create_indexes) foreign own f

metric_desc-found :
    (create_indexes : Bool) (m : Metric)
    → (is_own (metric_desc m).name ≡ true)
      × (contains (metric_desc m).name (own_names create_indexes)
          ≡ (create_indexes || not (is_index_metric m)))
unfolding desc op_metrics describe new_pool_collector table_metrics pg_metrics index_metrics
    metric_desc counter_desc wait_events_active
metric_desc-found true (index_size_bytes index table) = (refl, refl)
metric_desc-found true (index_scans_total index table) = (refl, refl)
metric_desc-found true (table_size_bytes table) = (refl, refl)
metric_desc-found true (table_live_tuples table) = (refl, refl)
metric_desc-found true (table_dead_tuples table) = (refl, refl)
metric_desc-found true (table_mod_since_analyze table) = (refl, refl)
metric_desc-found true (table_autovacuum_total table) = (refl, refl)
metric_desc-found true (table_autoanalyze_total table) = (refl, refl)
metric_desc-found false (index_size_bytes index table) = (refl, refl)
metric_desc-found false (index_scans_total index table) = (refl, refl)
metric_desc-found false (table_size_bytes table) = (refl, refl)
metric_desc-found false (table_live_tuples table) = (refl, refl)
metric_desc-found false (table_dead_tuples table) = (refl, refl)
metric_desc-found false (table_mod_since_analyze table) = (refl, refl)
metric_desc-found false (table_autovacuum_total table) = (refl, refl)
metric_desc-found false (table_autoanalyze_total table) = (refl, refl)

-- Whether these are own names and all registered.
abbrev are_found : List Desc → Bool → Bool
are_found [] create_indexes = true
are_found (d ∷ ds) create_indexes =
    is_own d.name && (contains d.name (own_names create_indexes) && are_found ds create_indexes)

are_found-All :
    (ds : List Desc) (create_indexes : Bool) (foreign : List String)
    → are_found ds create_indexes ≡ true
    → All Foreign foreign
    → All (λ d. contains d.name (own_names create_indexes ++ foreign) ≡ true) ds
are_found-All [] create_indexes foreign h f = tt
are_found-All (d ∷ ds) create_indexes foreign h f =
    let split : (is_own d.name ≡ true)
        × (contains d.name (own_names create_indexes) ≡ true)
        × (are_found ds create_indexes ≡ true) =
      ground arith in
    (
      found d.name create_indexes foreign split.0 f ∙ split.1,
      are_found-All ds create_indexes foreign split.2 f,
    )

-- The metrics of the pool at a scrape.
abbrev pub pool_metrics : (F : Float64) → PoolStats F → List Desc
pool_metrics F s = map (λ m. m.of_desc) (collect_pool F new_pool_collector s)

pool-found :
    (F : Float64) (s : PoolStats F) (create_indexes : Bool)
    → are_found (pool_metrics F s) create_indexes ≡ true
unfolding desc op_metrics describe new_pool_collector table_metrics pg_metrics index_metrics
    metric_desc counter_desc wait_events_active collect_pool
pool-found F s true = refl
pool-found F s false = refl

-- An own name that is registered whether or not there are indexes.
abbrev Kept : Desc → Bool → Type 0
Kept d create_indexes = (is_own d.name ≡ true) × (contains d.name (own_names create_indexes) ≡ true)

call_desc-Kept :
    {F : Float64} {X : Executor} (create_indexes : Bool) (c : MetricCall F X)
    → Kept (call_desc c) create_indexes
unfolding desc op_metrics describe new_pool_collector table_metrics pg_metrics index_metrics
    metric_desc counter_desc wait_events_active call_desc
call_desc-Kept true (ops_total op failed) = (refl, refl)
call_desc-Kept true (op_duration op duration) = (refl, refl)
call_desc-Kept true (ops_skipped op) = (refl, refl)
call_desc-Kept true workers_inc = (refl, refl)
call_desc-Kept true workers_dec = (refl, refl)
call_desc-Kept false (ops_total op failed) = (refl, refl)
call_desc-Kept false (op_duration op duration) = (refl, refl)
call_desc-Kept false (ops_skipped op) = (refl, refl)
call_desc-Kept false workers_inc = (refl, refl)
call_desc-Kept false workers_dec = (refl, refl)

counter_desc-Kept : (create_indexes : Bool) (k : Counter) → Kept (counter_desc k) create_indexes
unfolding desc op_metrics describe new_pool_collector table_metrics pg_metrics index_metrics
    metric_desc counter_desc wait_events_active
counter_desc-Kept true checkpoints_timed = (refl, refl)
counter_desc-Kept true checkpoints_req = (refl, refl)
counter_desc-Kept true buffers_checkpoint = (refl, refl)
counter_desc-Kept true buffers_clean = (refl, refl)
counter_desc-Kept true buffers_backend = (refl, refl)
counter_desc-Kept true checkpoint_write_seconds = (refl, refl)
counter_desc-Kept true checkpoint_sync_seconds = (refl, refl)
counter_desc-Kept true wal_bytes_total = (refl, refl)
counter_desc-Kept true wal_records_total = (refl, refl)
counter_desc-Kept true wal_fpi_total = (refl, refl)
counter_desc-Kept true wal_buffers_full_total = (refl, refl)
counter_desc-Kept false checkpoints_timed = (refl, refl)
counter_desc-Kept false checkpoints_req = (refl, refl)
counter_desc-Kept false buffers_checkpoint = (refl, refl)
counter_desc-Kept false buffers_clean = (refl, refl)
counter_desc-Kept false buffers_backend = (refl, refl)
counter_desc-Kept false checkpoint_write_seconds = (refl, refl)
counter_desc-Kept false checkpoint_sync_seconds = (refl, refl)
counter_desc-Kept false wal_bytes_total = (refl, refl)
counter_desc-Kept false wal_records_total = (refl, refl)
counter_desc-Kept false wal_fpi_total = (refl, refl)
counter_desc-Kept false wal_buffers_full_total = (refl, refl)

waits-Kept : (create_indexes : Bool) → Kept wait_events_active create_indexes
unfolding desc op_metrics describe new_pool_collector table_metrics pg_metrics index_metrics
    metric_desc counter_desc wait_events_active
waits-Kept true = (refl, refl)
waits-Kept false = (refl, refl)

publish_desc-Kept :
    {F : Float64} (create_indexes : Bool) (x : Publish F) → Kept (publish_desc x) create_indexes
unfolding publish_desc
publish_desc-Kept create_indexes (add counter v) = counter_desc-Kept create_indexes counter
publish_desc-Kept create_indexes reset_waits = waits-Kept create_indexes
publish_desc-Kept create_indexes (set_wait type event v) = waits-Kept create_indexes

Kept-contains :
    (d : Desc) (create_indexes : Bool) (foreign : List String)
    → All Foreign foreign
    → Kept d create_indexes
    → contains d.name (own_names create_indexes ++ foreign) ≡ true
Kept-contains d create_indexes foreign f k = found d.name create_indexes foreign k.0 f ∙ k.1

-- On a registry that holds no name with the prefix of the process, the registrations at the start
-- never panic; afterwards the metric of every call that a worker makes, of every value that a scrape
-- reports of the pool and of every value that is published of the server is registered, those of
-- tables are, and those of indexes are exactly if indexes are created.
pub register_metrics-contains :
    (F : Float64) (X : Executor) (s : PoolStats F) (create_indexes : Bool) (foreign : List String)
    → All Foreign foreign
    → (names : List String) × (register_metrics (describe new_pool_collector) create_indexes foreign
        ≡ some names)
      × ((c : MetricCall F X) → contains (call_desc c).name names ≡ true)
      × All (λ d. contains d.name names ≡ true) (pool_metrics F s)
      × ((x : Publish F) → contains (publish_desc x).name names ≡ true)
      × ((m : Metric)
          → contains (metric_desc m).name names ≡ (create_indexes || not (is_index_metric m)))
register_metrics-contains F X s create_indexes foreign f = (
  own_names create_indexes ++ foreign,
  register_metrics-own create_indexes foreign f,
  λ c. Kept-contains (call_desc c) create_indexes foreign f (call_desc-Kept create_indexes c),
  are_found-All (pool_metrics F s) create_indexes foreign (pool-found F s create_indexes) f,
  λ x. Kept-contains (publish_desc x) create_indexes foreign f (publish_desc-Kept create_indexes x),
  λ m.
      found (metric_desc m).name create_indexes foreign (metric_desc-found create_indexes m).0 f
      ∙ (metric_desc-found create_indexes m).1,
)

-- ===== src/Metrics/PoolCollector.antt =====
-- metrics/pool_collector.go: the statistics of the pool, read at each scrape.
use pgstorm.Prelude.{ℤ, List, [], ◌∷◌}
use pgstorm.Workload.Float.{Float64, seconds}
use pgstorm.Metrics.Registry.{Desc, desc}

-- `prometheus.ValueType`
pub data ValueType : Type 0 where
  counter_value : ValueType
  gauge_value : ValueType

-- What `pool.Stat()` tells; the duration is in nanoseconds.
pub record Stat : Type 0 where
  pub acquired_conns : ℤ
  pub idle_conns : ℤ
  pub total_conns : ℤ
  pub max_conns : ℤ
  pub acquire_count : ℤ
  pub empty_acquire_count : ℤ
  pub canceled_acquire_count : ℤ
  pub acquire_duration : ℤ

-- The descriptions that `newPoolCollectorWith` makes.
pub record PoolCollector : Type 0 where
  pub acquired : Desc
  pub idle : Desc
  pub total : Desc
  pub max_conns : Desc
  pub acquire_count : Desc
  pub empty_acquire_count : Desc
  pub canceled_acquire_count : Desc
  pub acquire_duration : Desc

unfoldable pub new_pool_collector : PoolCollector
unfolding desc
new_pool_collector = record {
  acquired = desc "pool_acquired_conns" [];
  idle = desc "pool_idle_conns" [];
  total = desc "pool_total_conns" [];
  max_conns = desc "pool_max_conns" [];
  acquire_count = desc "pool_acquire_count_total" [];
  empty_acquire_count = desc "pool_empty_acquire_count_total" [];
  canceled_acquire_count = desc "pool_canceled_acquire_count_total" [];
  acquire_duration = desc "pool_acquire_duration_seconds_total" [];
}

-- `Describe`
unfoldable pub describe : PoolCollector → List Desc
describe c =
    c.acquired ∷ c.idle ∷ c.total ∷ c.max_conns ∷ c.acquire_count ∷ c.empty_acquire_count
    ∷ c.canceled_acquire_count ∷ c.acquire_duration ∷ []

module _ (F : Float64) where
  open F use {Float, of_int}

  -- `poolStats`
  pub record PoolStats : Type 0 where
    pub acquired : ℤ
    pub idle : ℤ
    pub total : ℤ
    pub max : ℤ
    pub acquire_count : ℤ
    pub empty_acquire_count : ℤ
    pub canceled_acquire_count : ℤ
    pub acquire_duration_seconds : Float

  -- The function that `NewPoolCollector` passes.
  unfoldable pub pool_stats : Stat → PoolStats
  pool_stats s = record {
    acquired = s.acquired_conns;
    idle = s.idle_conns;
    total = s.total_conns;
    max = s.max_conns;
    acquire_count = s.acquire_count;
    empty_acquire_count = s.empty_acquire_count;
    canceled_acquire_count = s.canceled_acquire_count;
    acquire_duration_seconds = seconds F s.acquire_duration;
  }

  -- `MustNewConstMetric`
  pub record ConstMetric : Type 0 where
    pub of_desc : Desc
    pub value_type : ValueType
    pub value : Float

  abbrev const_metric : Desc → ValueType → Float → ConstMetric
  const_metric d k v = record { of_desc = d; value_type = k; value = v }

  -- `Collect`
  unfoldable pub collect_pool : PoolCollector → PoolStats → List ConstMetric
  collect_pool c s =
      const_metric c.acquired gauge_value (of_int s.acquired)
      ∷ const_metric c.idle gauge_value (of_int s.idle)
      ∷ const_metric c.total gauge_value (of_int s.total)
      ∷ const_metric c.max_conns gauge_value (of_int s.max)
      ∷ const_metric c.acquire_count counter_value (of_int s.acquire_count)
      ∷ const_metric c.empty_acquire_count counter_value (of_int s.empty_acquire_count)
      ∷ const_metric c.canceled_acquire_count counter_value (of_int s.canceled_acquire_count)
      ∷ const_metric c.acquire_duration counter_value s.acquire_duration_seconds
      ∷ []

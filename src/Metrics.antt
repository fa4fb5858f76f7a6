-- ===== src/Metrics.antt =====
-- metrics/: what the process publishes of the database's own statistics.
pub mod IndexStats
pub mod PgStats
pub mod Registry
pub mod PoolCollector

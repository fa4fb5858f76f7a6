-- ===== src/Workload/Stats.antt =====
-- workload/stats.go: what the workers measure, the windows that the summaries drain, and the
-- totals and the series of a whole run.
pub mod Window
pub mod Quantile
pub mod Series
pub mod Collector
pub mod Sums
pub mod Readings
pub mod Conserve
pub mod Run
pub mod Agree
pub mod Progress
pub mod Balance
pub mod Entries
pub mod Distinct
pub mod NearestRank
mod Tests

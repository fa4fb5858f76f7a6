-- ===== src/Workload.antt =====
-- workload/: the operations of a run, their mix, their statistics and the workers that run them.
pub mod Rng
pub mod Weights
pub mod Ring
pub mod Payload
pub mod Ops
pub mod Float
pub mod Stats
pub mod Worker
pub mod Fleet
pub mod Profile
pub mod Console
pub mod Templates
pub mod Snapshot
pub mod RunResult
pub mod ResultFile

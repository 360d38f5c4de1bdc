-- ===== src/Rollout.antt =====
-- internal/rollout: the rollout of versions, node by node.
pub mod World
pub mod Node
pub mod Pool
pub mod K8s
pub mod Ending
pub mod Saved
pub mod Course
pub mod Executor
pub mod Calls
pub mod Prepared
pub mod Safety
pub mod Waits
pub mod Resume
pub mod Halting
pub mod Outcome
pub mod Healthy
pub mod Confirmed
pub mod Budget

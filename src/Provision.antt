-- ===== src/Provision.antt =====
-- internal/provision: new machines and new clusters.
pub mod Site
pub mod Config
pub mod Bootstrap
pub mod Quiet
pub mod Still
pub mod Calls
pub mod Ordered
pub mod Phases
pub mod Trails
pub mod Hosts
pub mod Records
pub mod Reconciler
pub mod Choices
pub mod Mute
pub mod Counts
pub mod Deeds
pub mod Passes
pub mod Executor

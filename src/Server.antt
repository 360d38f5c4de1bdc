-- ===== src/Server.antt =====
-- internal/server: the gRPC service over the store.
pub mod Service
pub mod Reads
pub mod Writes
pub mod Jobs
pub mod Hosts
pub mod Guards

-- ===== src/Matchbox.antt =====
-- internal/provision/matchbox: the files that Matchbox serves to booting hosts.
pub mod Disk
pub mod Driver
pub mod Keys
pub mod Files
pub mod Mirror

-- ===== src/Creds.antt =====
-- internal/creds: the credentials of the managed clusters, in files or in a 1Password vault.
pub mod Interface
pub mod Steps
pub mod FileStore
pub mod Filed
pub mod OnePassword
pub mod Sdk
pub mod Fields
pub mod Migrate
pub mod Copied

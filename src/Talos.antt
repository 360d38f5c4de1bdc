-- ===== src/Talos.antt =====
-- internal/talos, its pure part.
pub mod Image
pub mod Tags

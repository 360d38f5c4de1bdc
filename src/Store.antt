-- ===== src/Store.antt =====
-- internal/store: the state store.
pub mod State
pub mod Write
pub mod Delete
pub mod Read
pub mod Watch
pub mod Cas
pub mod Slots
pub mod Teardown
pub mod Revisions
pub mod Bodies
pub mod Reach
pub mod Frames
pub mod Roundtrip
pub mod Spec

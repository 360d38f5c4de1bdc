-- ===== src/Proto.antt =====
-- The messages of proto/medea/v1/medea.proto, as gen/medea/v1/medea.pb.go declares them.
-- A pointer to a message is an Option, and the generated getters read a nil one as its zero value.
mod Enums
mod Inventory
mod Progress
pub use Enums.*
pub use Inventory.*
pub use Progress.*

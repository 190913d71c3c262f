-- ===== src/Types.antt =====
-- The types that the components share (packages/kolme/src/core/types.rs).
pub mod Decimal
pub mod Chain
pub mod Signed
pub mod Asset
pub mod Bridge
mod Errors
pub use Errors.*

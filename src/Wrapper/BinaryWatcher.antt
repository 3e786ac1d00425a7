-- ===== src/Wrapper/BinaryWatcher.antt =====
-- The in-place upgrade of the pg_doorman binary (internal/wrapper/binarywatcher.go).
mod Defs
pub mod Upgrade
pub mod Swap
pub mod Contract
pub mod Refines
pub mod Progress
unfoldable pub use Defs.*

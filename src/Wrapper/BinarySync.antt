-- ===== src/Wrapper/BinarySync.antt =====
-- The installation of the pg_doorman binary (internal/wrapper/binarysync.go).
mod Defs
pub mod Download
pub mod Progress
pub mod Steady
pub mod Sources
pub mod Started
unfoldable pub use Defs.*

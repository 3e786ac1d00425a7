-- ===== src/Wrapper/FileWatcher.antt =====
-- The watcher over the rendered config (internal/wrapper/filewatcher.go).
mod Defs
pub mod Materialize
pub mod Atomic
pub mod Progress
pub mod Check
pub mod Contract
pub mod Gauge
pub mod Stale
unfoldable pub use Defs.*

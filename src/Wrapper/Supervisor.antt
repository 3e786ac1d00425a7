-- ===== src/Wrapper/Supervisor.antt =====
-- The supervision loop (`RunWithRestart` of internal/wrapper/process.go).
mod Defs
pub mod Backoff
pub mod Handover
pub mod Waits
pub mod CrashLoop
pub mod Sweep
unfoldable pub use Defs.*

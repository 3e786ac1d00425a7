-- ===== src/Wrapper/Process.antt =====
-- The supervised process (internal/wrapper/process.go): the signals that the watchers send, and
-- the waits.
mod Defs
pub mod Waiting
pub mod Ends
unfoldable pub use Defs.*

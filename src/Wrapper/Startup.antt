-- ===== src/Wrapper/Startup.antt =====
-- The start of the sidecar: internal/wrapper/startup.go, and the part of cmd/wrapper/main.go that
-- runs before the supervisor.
mod Defs
pub mod Serving
unfoldable pub use Defs.*

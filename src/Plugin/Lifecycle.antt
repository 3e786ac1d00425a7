-- ===== src/Plugin/Lifecycle.antt =====
-- The injection of the sidecar into a Pod (internal/lifecycle).
mod Defs
pub mod Volumes
pub mod Injection
pub mod Ports
unfoldable pub use Defs.*

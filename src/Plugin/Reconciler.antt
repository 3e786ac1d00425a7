-- ===== src/Plugin/Reconciler.antt =====
-- The hook that runs before the operator reconciles a Cluster (internal/reconciler).
mod Defs
pub mod Outcomes
pub mod Cleanup
pub mod Served
pub mod Settled
pub mod Routed
unfoldable pub use Defs.*

-- ===== src/Plugin/Config.antt =====
-- The plugin parameters of a Cluster (internal/config/config.go).
mod Defs
pub mod Checked
pub mod Mutation
unfoldable pub use Defs.*

-- ===== src/Plugin/ConfigGen.antt =====
-- The config that the controller renders (internal/configgen/configgen.go), before yaml.Marshal.
mod Defs
pub mod Servable
unfoldable pub use Defs.*

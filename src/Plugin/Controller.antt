-- ===== src/Plugin/Controller.antt =====
-- The rendering controller of the plugin (internal/controller).
mod Defs
mod Loop
pub mod Reads
pub mod Rendering
pub mod Storing
pub mod Safety
pub mod Finalizer
pub mod Whole
pub mod Deletion
pub mod Events
unfoldable pub use Defs.*
unfoldable pub use Loop.*

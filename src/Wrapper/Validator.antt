-- ===== src/Wrapper/Validator.antt =====
-- The structural check of a rendered config (internal/wrapper/validator.go).
mod Defs
pub mod Duration
pub mod Exact
unfoldable pub use Defs.*

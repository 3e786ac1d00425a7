-- ===== src/Plugin/AuthSecrets.antt =====
-- The Secrets that a PgDoorman refers to (internal/specs/authsecrets.go and secrets.go).
mod Defs
pub mod Agreement
pub mod Names
unfoldable pub use Defs.*

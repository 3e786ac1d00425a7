-- ===== src/Plugin.antt =====
-- The plugin side: its parameters, the hooks that CNPG calls, and the controller.
pub mod Config
pub mod Defaults
pub mod Webhook
pub mod Api
pub mod AuthSecrets
pub mod ConfigGen
pub mod Credentials
pub mod Controller
pub mod Lifecycle
pub mod Reconciler
pub mod Binaries

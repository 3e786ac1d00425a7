-- ===== src/Wrapper.antt =====
-- The sidecar wrapper (internal/wrapper).
pub mod World
pub mod Calls
pub mod Validator
pub mod BinarySpec
pub mod Frame
pub mod Platform
pub mod Restart
pub mod Process
pub mod AtomicWrite
pub mod TlsKey
pub mod FileWatcher
pub mod BinarySync
pub mod BinaryWatcher
pub mod RoleWatcher
pub mod Startup
pub mod Main
pub mod Sidecar
pub mod Successor
pub mod Supervisor

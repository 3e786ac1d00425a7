-- ===== src/Deployment.antt =====
-- Where the plugin and the sidecar meet: the container that internal/lifecycle injects and
-- cmd/wrapper/main.go in it, and the binary endpoint with the download that reads from it.
pub mod Wiring
pub mod Delivery

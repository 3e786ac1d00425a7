-- ===== src/Tests.antt =====
-- Runs of the model on one small pod and on a few configurations.
mod Pod
mod Watchers
mod Binary
mod Supervision
mod Configs
mod Operator
mod Deployment

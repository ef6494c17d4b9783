-- ===== src/Store.antt =====
-- `pmcluster/internal/store`: the SQLite tables behind the control plane.
pub mod Configs
pub mod Stacks
pub mod Backups
pub mod Webhooks
pub mod Secrets

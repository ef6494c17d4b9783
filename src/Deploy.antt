-- ===== src/Deploy.antt =====
-- `pmcluster/internal/stacks/deploy.go`: deploy, sync, rollback and removal of a stack, as runs of
-- named steps over a world. Docker, the backup container, the readers and writers of YAML and JSON,
-- and SHA-256 are parameters.
pub mod World
pub mod Pipeline
pub mod Rollback
pub mod Undeploy
pub mod Atomicity
pub mod Convergence
pub mod Toolchain
pub mod Published

-- ===== src/Manifest.antt =====
-- `pmcluster/internal/manifest`: from a parsed manifest to a Compose file.
pub mod Dsl
pub mod Refs
pub mod Validate
pub mod Ir
pub mod Translate
pub mod Compose
pub mod Labels
pub mod Writer
pub mod Interpolate

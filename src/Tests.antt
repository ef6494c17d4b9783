-- ===== src/Tests.antt =====
-- The development on concrete inputs.
mod EdgeRuns
mod StoreRuns
mod DeployRuns
mod WebhookRuns
mod AuthRuns
mod ManifestRuns
mod InterpolateRuns
mod PublishRuns
mod SourceRuns
mod BackupRuns
mod VaultRuns

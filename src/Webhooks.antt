-- ===== src/Webhooks.antt =====
-- `pmcluster/internal/webhooks`.
pub mod Wire
pub mod Receiver
pub mod Sources
pub mod Local

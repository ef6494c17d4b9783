-- ===== src/Edge.antt =====
-- `pmcluster/internal/edgeproxy`: the protections in front of the daemon.
pub mod Net
pub mod RealIp
pub mod Bans
pub mod Blocklist
pub mod Limits
pub mod Shield
pub mod Handler

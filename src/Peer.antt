-- ===== src/Peer.antt =====
-- The package peer.
pub mod Gossip
pub mod Discovery
pub mod Sync
pub mod Dispatch

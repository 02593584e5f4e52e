-- ===== src/Handshake.antt =====
-- The package handshake.
pub mod Once
pub mod Ecies
pub mod Insecure

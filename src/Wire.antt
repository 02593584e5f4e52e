-- ===== src/Wire.antt =====
-- The package wire: what goes over the network.
pub mod Address
pub mod Msg
pub mod Marshal
pub mod SigAddr

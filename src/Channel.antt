-- ===== src/Channel.antt =====
-- The package channel.
pub mod Filter
pub mod Client
pub mod WriteLoop
pub mod ReadLoop

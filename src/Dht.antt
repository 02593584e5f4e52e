-- ===== src/Dht.antt =====
-- The package dht: the peer table of dht/table.go and the content resolvers of dht/resolver.go.
pub mod Distance
pub mod Table
pub mod Resolver

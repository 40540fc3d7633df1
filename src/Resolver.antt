-- ===== src/Resolver.antt =====
-- crates/resolver: the client side of the registry.
pub mod Merkle
pub mod LightClient

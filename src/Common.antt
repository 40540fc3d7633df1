-- ===== src/Common.antt =====
-- crates/common/src: the types that every crate shares. A `DateTime<Utc>` is a number of seconds.
pub mod Package
pub mod Block
pub mod External
pub mod Sample
pub mod Merkle
pub mod Collision

-- ===== src/Node.antt =====
-- crates/node: the parts of the node that keep state of their own.
pub mod RateLimit
pub mod History
pub mod PendingPool
pub mod L1Quorum
pub mod ChainStore
pub mod Proof
pub mod PublisherIndex
pub mod Signatures
pub mod Sync

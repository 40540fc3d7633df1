-- ===== src/Consensus/Pbft.antt =====
-- crates/consensus/src/pbft.rs.
pub mod Round
pub mod Engine
pub mod Invariant
pub mod Safety
pub mod Certified
pub mod Liveness
pub mod Timeout
pub mod ViewChange
pub mod Reset
mod Tests

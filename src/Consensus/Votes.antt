-- ===== src/Consensus/Votes.antt =====
-- crates/consensus/src/vote_accumulator.rs: the votes on packages.
pub mod Round
pub mod Accumulator
pub mod Outcome
pub mod Replay
pub mod Expiry
mod Tests

-- ===== src/Consensus.antt =====
-- crates/consensus/src: validator sets, proposer selection, PBFT rounds and the votes on packages.
pub mod ValidatorSet
pub mod Vrf
pub mod Pbft
pub mod Votes
pub mod Evidence
pub mod Inclusion

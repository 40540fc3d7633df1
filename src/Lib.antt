-- ===== src/Lib.antt =====
-- A verification library of the chain registry: the consensus crate, the parts of the node that keep
-- state of their own, its chain store and synchronisation, and the light client.
--
-- The program. A publisher submits a package to a node, which keeps it in a pool until validators
-- have scanned it and signed votes. A list of signatures or a round of votes yields a verdict on the
-- package, and the validators agree on blocks of such records by PBFT, over a validator set and with a
-- proposer that a verifiable random function chooses. A node checks the signatures of a block against
-- the validator set that was in force at its height, stores it with an index of its packages, and
-- leaves a fork for a longer one. A client that does not trust its node checks a header chain, the
-- signatures of a quorum and a Merkle proof.
--
-- The files, and the code they model (all paths are below crates/):
--   Prelude    the shared helpers: Boolean tests (Tests), lists (Lists), byte strings (Strings),
--              Rust's Result (Results) and HashMap (Map, Keys), counting (Count), sorting (Sort),
--              and column families, whose keys are in order (Ordered)
--   Common     common/src/package.rs (Package), common/src/block.rs (Block, Merkle), and the functions of
--              outside packages (External): hex, sha2, serde_json, ed25519_dalek; Collision
--              says that two texts have one hash
--   Consensus.ValidatorSet   consensus/src/validator_set.rs
--   Consensus.Vrf            consensus/src/vrf.rs
--   Consensus.Pbft           consensus/src/pbft.rs: PbftRound is Round, PbftEngine is Engine; the other
--                            files hold proofs, by what they prove
--   Consensus.Votes          consensus/src/vote_accumulator.rs: PackageVoteState is Round,
--                            VoteAccumulator is Accumulator
--   Consensus.Evidence       consensus/src/evidence_votes.rs
--   Consensus.Inclusion      consensus/src/forced_inclusion.rs
--   Node.RateLimit           node/src/rate_limit.rs
--   Node.History             node/src/validator_set_history.rs
--   Node.PendingPool         node/src/pending_pool.rs
--   Node.L1Quorum            node/src/l1_quorum.rs
--   Node.ChainStore          node/src/chain_store.rs: the writes, and the reads in Query
--   Node.Proof               node/src/proof.rs
--   Node.PublisherIndex      node/src/publisher_index.rs
--   Node.Signatures          node/src/sync.rs, verify_block_signatures, with the message of a vote of
--                            node/src/gossip.rs
--   Node.Sync                node/src/sync.rs, with record_reorg of node/src/state.rs
--   Resolver.Merkle, Resolver.LightClient   resolver/src/light_client.rs
--
-- Correspondence. A struct is a record, an enum a data type; a method that takes &mut self is a
-- function from the state to its result and the new state, under the method's name, or under one that
-- says more where the name is taken: pre_prepare is propose, PbftEngine::prepare is engine_prepare,
-- PendingPool::open is open_pool, record of the history is record_set, MerkleProof::verify is
-- verify_proof, canonical_vote_message of the node is gossip_vote_message, and what verify_package does
-- with an answer is check_response. A string is the list of its
-- bytes, a HashMap an association list with one entry for a key, in the order of first insertion: what
-- depends on the order of a real map's entries is stated so that the order does not matter, or for this
-- order. Result and Option are as in Rust; an error's text is a constructor.
--
-- Numbers are natural numbers; u32 and usize arithmetic that can leave its range wraps where the code's
-- would in a release build, or a hypothesis says that it stays within the range. The number of the
-- elements of a list in memory is far below 2^63, and twice that number is not reduced. A clock is an
-- argument. The loops of the code run over lists, by structural recursion, over the
-- heights of a chain by recursion on their number, and on fuel in three places: the decimal form of a
-- number in Consensus.Vrf, whose twenty digits are enough for a u64, and the two loops over the levels of
-- a Merkle tree, whose fuel is the number of transactions: a level has at most half of the hashes of the
-- one below, rounded up.
--
-- Outside code. The functions of outside packages are the fields of Common.External, and each theorem
-- holds for every choice of them, under the conditions that it states of them: that all hashes have 64
-- characters, or that headers with the same JSON have the same height or are the same. Common.Sample
-- has one choice for the tests, and Common.Sample.Encoding another, whose hashes have 64 characters and
-- whose headers differ in their JSON. RocksDB is a map with its keys in order, of values instead of
-- their JSON. The shuffle of the rand crate is an argument of select_validators.
--
-- Not modelled: logging and metrics; reading the configuration from the environment; failures of the
-- disk; locks, since an operation of a component runs under one lock, and what other tasks do between the
-- locks of the synchronisation is an argument; the network, whose answers are arguments, and the API of
-- the node; the migration from sled; the scanner, the sandboxes, the insurance, the threshold
-- encryption, the cross-chain and zero-knowledge crates; the contracts and the circuits.
pub mod Prelude
pub mod Common
pub mod Consensus
pub mod Node
pub mod Resolver

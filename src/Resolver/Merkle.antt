-- ===== src/Resolver/Merkle.antt =====
-- crates/resolver/src/light_client.rs: proofs that a transaction is in a block.
pub mod Inclusion
mod Tests
pub mod Sound
pub mod Path
pub mod Pairs
use chain_registry_core.Prelude.{
  ℕ, zero, suc, ◌+◌, ◌-◌, ◌/◌, ◌%◌, Bool, true, false, Option, none, some, List, [], ◌∷◌, ◌++◌,
  Text, text_eq, ◌==◌, nat_beq, leb, if◌then◌else◌, length, get_elem?, Result, ok, err, ◌>>=◌,
}
use chain_registry_core.Common.Block.{Block, Transaction}
use chain_registry_core.Common.External.{External}
use chain_registry_core.Common.Merkle.{padded, next_level, leaf_hashes}

-- `is_right`: the sibling is on the right side.
pub record MerkleStep : Type 0 where
  pub sibling_hash : Text
  pub is_right : Bool

pub record MerkleProof : Type 0 where
  pub tx_hash : Text
  pub path : List MerkleStep
  pub expected_root : Text

-- A transaction's index out of range, and a read out of bounds or a loop without end, which do not
-- occur.
pub data ProofError : Type 0 where
  index_out_of_range no_proof : ProofError

abbrev pub found_or : {A : Type 0} → Option A → Result ProofError A
found_or none = err no_proof
found_or (some a) = ok a

abbrev pub sibling_of : ℕ → ℕ
sibling_of i = if nat_beq (i % 2) 0 then i + 1 else i - 1

abbrev pub with_step : ℕ → Option Text → Option (List MerkleStep) → Option (List MerkleStep)
with_step i none path = none
with_step i (some sibling) none = none
with_step i (some sibling) (some path) =
    some (record { sibling_hash = sibling; is_right = nat_beq (i % 2) 0 } ∷ path)

module _ (x : External) where
  open x use {sha256_hex}

  abbrev pub climb : Text → MerkleStep → Text
  climb current step =
      if step.is_right
      then sha256_hex (current ++ step.sibling_hash)
      else sha256_hex (step.sibling_hash ++ current)

  unfoldable pub walk : Text → List MerkleStep → Text
  walk current [] = current
  walk current (step ∷ path) = walk (climb current step) path

  unfoldable pub verify_proof : MerkleProof → Bool
  unfolding walk
  verify_proof proof = walk proof.tx_hash proof.path == proof.expected_root

  -- The loop of `build_merkle_proof`, with fuel.
  unfoldable pub path_from : ℕ → List Text → ℕ → Option (List MerkleStep)
  path_from zero level i = none
  path_from (suc fuel) [] i = some []
  path_from (suc fuel) (a ∷ []) i = some []
  path_from (suc fuel) (a ∷ b ∷ level) i =
      let rest = path_from fuel (next_level x (padded (a ∷ b ∷ level))) (i / 2) in
      with_step i (get_elem? (padded (a ∷ b ∷ level)) (sibling_of i)) rest

  unfoldable pub build_merkle_proof : Block → ℕ → Result ProofError MerkleProof
  build_merkle_proof block tx_index =
      let leaves = leaf_hashes x block.transactions in
      if leb (length block.transactions) tx_index
      then err index_out_of_range
      else (found_or (get_elem? leaves tx_index) >>= λ tx_hash.
          found_or (path_from (length block.transactions) leaves tx_index) >>= λ path.
          ok (record { tx_hash = tx_hash; path = path; expected_root = block.header.merkle_root }))

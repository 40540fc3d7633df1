-- ===== src/Node/Proof.antt =====
-- crates/node/src/proof.rs: the node's answer to a light client.
pub mod Accepted
mod Tests
use chain_registry_core.Prelude.{
  ℕ, zero, suc, ◌+◌, ◌-◌, Bool, true, false, Option, none, some, List, [], ◌∷◌, ◌++◌, Text, txt,
  text_eq, cuts_at_12, ◌==◌, if◌then◌else◌, Result, ok, err, ◌>>=◌,
}
use chain_registry_core.Common.Package.{
  ChainRecord, PackageStatus, verified, pending, revoked, canonical,
}
use chain_registry_core.Common.Block.{Block, BlockHeader, Transaction, publish}
use chain_registry_core.Common.External.{External, block_hash}
use chain_registry_core.Consensus.ValidatorSet.{Validator}
use chain_registry_core.Node.ChainStore.{
  ChainStore, get_package, get_block_by_hash, get_block_by_height,
}
use chain_registry_core.Resolver.Merkle.{MerkleProof, ProofError, build_merkle_proof}
use chain_registry_core.Resolver.LightClient.{LightClientResponse}

pub data BuildError : Type 0 where
  not_in_block panicked : BuildError
  merkle : ProofError → BuildError

abbrev pub position_from : ℕ → Text → List Transaction → Option ℕ
position_from i name [] = none
position_from i name (publish r ∷ txs) =
    if canonical r.id == name then some i else position_from (suc i) name txs
position_from i name (tx ∷ txs) = position_from (suc i) name txs

-- The index of the package's first Publish.
abbrev pub position : Text → List Transaction → Option ℕ
position name txs = position_from 0 name txs

abbrev pub is_verified : PackageStatus → Bool
is_verified verified = true
is_verified pending = false
is_verified (revoked reason) = false

-- The messages about a missing block and about a package that is not in its block slice the hash.
abbrev pub located : Text → Option ℕ → Result BuildError ℕ
located hash none = err (if cuts_at_12 hash then not_in_block else panicked)
located hash (some i) = ok i

abbrev pub built : {A : Type 0} → Result ProofError A → Result BuildError A
built (err e) = err (merkle e)
built (ok a) = ok a

module _ (x : External) where
  abbrev pub with_header : Option Block → List (BlockHeader × Text) → List (BlockHeader × Text)
  with_header none headers = headers
  with_header (some b) headers = (b.header, block_hash x b) ∷ headers

  -- At the heights from `h` on, `count` of them; a height without a block is passed over.
  unfoldable pub headers_up : ℕ → ℕ → ChainStore → List (BlockHeader × Text)
  headers_up h zero s = []
  headers_up h (suc count) s = with_header (get_block_by_height h s) (headers_up (h + 1) count s)

  abbrev pub header_chain : Block → ChainStore → List (BlockHeader × Text)
  header_chain b s = headers_up 1 (b.header.height - 1) s ++ (b.header, block_hash x b) ∷ []

  abbrev pub respond : Block → ChainStore → List Validator → MerkleProof → LightClientResponse
  respond b s vs proof = record {
    status = txt "verified";
    block_hash = block_hash x b;
    block_header = b.header;
    proof = proof;
    header_chain = header_chain b s;
    pbft_signatures = b.pbft_signatures;
    active_validators = vs;
  }

  abbrev pub prove_in :
      Text
      → Text
      → ChainStore
      → List Validator
      → Option Block
      → Result BuildError (Option LightClientResponse)
  prove_in name hash s vs none = if cuts_at_12 hash then ok none else err panicked
  prove_in name hash s vs (some b) = located hash (position name b.transactions) >>= λ i.
      built (build_merkle_proof x b i) >>= λ proof. ok (some (respond b s vs proof))

  abbrev pub prove_record :
      Text
      → ChainStore
      → List Validator
      → Option ChainRecord
      → Result BuildError (Option LightClientResponse)
  prove_record name s vs none = ok none
  prove_record name s vs (some r) =
      if is_verified r.status
      then prove_in name r.block_hash s vs (get_block_by_hash r.block_hash s)
      else ok none

  unfoldable pub build_proof :
      Text → ChainStore → List Validator → Result BuildError (Option LightClientResponse)
  unfolding headers_up
  build_proof name s vs = prove_record name s vs (get_package name s)

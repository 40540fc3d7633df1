-- ===== src/Node/Proof/Tests.antt =====
-- A chain of two blocks after the client's checkpoint, and what the node answers about a package in
-- the second.
use chain_registry_core.Prelude.{
  some, List, [], ◌∷◌, ◌++◌, Text, txt, true, false, text_eq, nat_eq, ok, ◌≡◌, refl, arith,
  trim_start_0x, to_ascii_lowercase,
}
use chain_registry_core.Prelude.Sort.{sort_by}
use chain_registry_core.Common.Package.{canonical, ChainRecord}
use chain_registry_core.Common.Block.{Block, BlockHeader, publish}
use chain_registry_core.Common.Merkle.{merkle_root, root_from, leaf_hashes, next_level, padded}
use chain_registry_core.Common.External.{block_hash}
use chain_registry_core.Common.Sample.Encoding.{encoded, fixed, header_fields, transaction_name}
use chain_registry_core.Common.Sample.Chain.{package_named, header_at, block_of}
use chain_registry_core.Consensus.ValidatorSet.{Validator}
use chain_registry_core.Node.ChainStore.{
  ChainStore, get_package, get_block_by_hash, get_block_by_height,
}
use chain_registry_core.Node.Proof.{build_proof}
use chain_registry_core.Node.Proof.Accepted.{IsLinked, build_proof-accepted}
use chain_registry_core.Resolver.LightClient.Complete.{IsQuorumSigned}
use chain_registry_core.Resolver.LightClient.{
  Checkpoint, LightClientResponse, joined, commit_message, compute_validator_set_hash, quorum_for,
  collect_keys, check_response,
}

abbrev validators : List Validator
validators =
    record {
      id = txt "v1";
      alias = [];
      pubkey = txt "ab";
      eth_address = [];
      stake = 1;
      reputation = 1;
      status = txt "online";
    }
    ∷ []

abbrev checkpoint : Checkpoint
checkpoint = record { height = 0; hash = txt "0" }

abbrev first_block : Block
first_block = block_of (header_at 1 (txt "0") [] []) [] []

abbrev pad : ChainRecord
pad = package_named (txt "pad")

abbrev second_header : BlockHeader
second_header =
    header_at 2 (fixed (header_fields first_block.header)) (fixed (txt "npm:a@1"))
      (fixed (joined (txt "v1" ∷ [])))

abbrev second_hash : Text
second_hash = fixed (header_fields second_header)

abbrev second_block : Block
second_block = block_of second_header (publish (package_named (txt "a")) ∷ publish pad ∷ []) (
    record {
      validator_id = txt "v1";
      pubkey = txt "ab";
      signature = txt "ab" ++ commit_message second_hash;
    }
    ∷ [])

abbrev store : ChainStore
store = record {
  by_hash =
      (fixed (header_fields first_block.header), first_block) ∷ (second_hash, second_block) ∷ [];
  by_height = (1, fixed (header_fields first_block.header)) ∷ (2, second_hash) ∷ [];
  packages = (txt "npm:pad@1", record pad { block_hash = second_hash }) ∷ [];
}

root_of_second : merkle_root encoded second_block.transactions ≡ some second_header.merkle_root
unfolding merkle_root root_from leaf_hashes next_level padded canonical
root_of_second = refl

second_signed :
    IsQuorumSigned encoded false
      (block_hash encoded second_block)
      second_header
      validators
      second_block.pbft_signatures
unfolding compute_validator_set_hash quorum_for collect_keys block_hash sort_by to_ascii_lowercase
    trim_start_0x
second_signed = record {
  same_set = refl;
  some_validator = omega arith;
  enough = omega arith;
  one_each = (refl, tt);
  commits =
      ((txt "ab", txt "ab" ++ commit_message second_hash, refl, refl, refl, refl, refl, refl), tt);
}

linked : IsLinked encoded store second_block (txt "0") 1 1
unfolding get_block_by_height get_block_by_hash block_hash
linked = (first_block, refl, refl, refl, (refl, refl))

build_proof-accepted_example :
    (response : LightClientResponse) × (build_proof encoded (txt "npm:pad@1") store validators
      ≡ ok (some response))
    × (check_response encoded false checkpoint response ≡ ok true)
    × ((q : ChainRecord) × (canonical q.id ≡ txt "npm:pad@1")
        × (response.proof.tx_hash ≡ fixed (transaction_name (publish q))))
unfolding get_package get_block_by_hash canonical
build_proof-accepted_example =
    build_proof-accepted encoded false (txt "npm:pad@1") store validators checkpoint
      (record pad { block_hash = second_hash }) second_block 1 refl refl refl refl root_of_second
      second_signed refl linked (omega arith)

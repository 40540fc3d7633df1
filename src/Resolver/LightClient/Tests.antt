-- ===== src/Resolver/LightClient/Tests.antt =====
-- An answer about a block of two transactions, and the theorems on the light client at it.
use chain_registry_core.Prelude.{
  ◌*◌, ◌≤◌, ◌<◌, ◌&&◌, some, List, [], ◌∷◌, ◌++◌, Text, txt, text_eq, true, false, length, All, ok,
  ◌≡◌, ◌⊎◌, refl, arith, trim_start_0x, to_ascii_lowercase,
}
use chain_registry_core.Prelude.Keys.{holds, Distinct}
use chain_registry_core.Prelude.Count.{count}
use chain_registry_core.Prelude.Sort.{sort_by}
use chain_registry_core.Common.Package.{canonical}
use chain_registry_core.Common.Block.{Block, BlockHeader, BlockSignature, publish}
use chain_registry_core.Common.Collision.{Collision}
use chain_registry_core.Common.External.{block_hash}
use chain_registry_core.Common.Merkle.{merkle_root, root_from, leaf_hashes, next_level, padded}
use chain_registry_core.Common.Sample.Encoding.{
  encoded, fixed, length-fixed, header_fields, header_fields_injective,
}
use chain_registry_core.Common.Sample.Chain.{package_named, header_at, block_of}
use chain_registry_core.Consensus.ValidatorSet.{Validator}
use chain_registry_core.Resolver.Merkle.{
  MerkleProof, build_merkle_proof, path_from, verify_proof, walk,
}
use chain_registry_core.Resolver.LightClient.{
  Checkpoint, LightClientResponse, joined, commit_message, check_commit_signature, quorum_for,
  compute_validator_set_hash, collect_keys, verify_pbft_consensus, verify_header, verify_link,
  verify_header_chain, check_response,
}
use chain_registry_core.Resolver.LightClient.Complete.{
  IsQuorumSigned, verify_pbft_consensus-IsQuorumSigned,
}
use chain_registry_core.Resolver.LightClient.Chain.{verify_header_chain_unique}
use chain_registry_core.Resolver.LightClient.Quorum.{ids, IsSigned, verify_pbft_consensus_overlap}
use chain_registry_core.Resolver.LightClient.Response.{IsAnchored, IsIncluded, check_response_sound}

abbrev validators : List Validator
validators =
    record {
      id = txt "v1";
      alias = [];
      pubkey = txt "ab";
      eth_address = [];
      stake = 1;
      reputation = 1;
      status = txt "online";
    }
    ∷ []

abbrev set_hash : Text
set_hash = fixed (joined (txt "v1" ∷ []))

abbrev signatures : Text → List BlockSignature
signatures hash =
    record {
      validator_id = txt "v1";
      pubkey = txt "ab";
      signature = txt "ab" ++ commit_message hash;
    }
    ∷ []

abbrev checkpoint : Checkpoint
checkpoint = record { height = 0; hash = txt "0" }

abbrev first_header : BlockHeader
first_header = header_at 1 (txt "0") (fixed (txt "npm:a@1")) set_hash

abbrev first_hash : Text
first_hash = fixed (header_fields first_header)

abbrev second_header : BlockHeader
second_header = header_at 2 first_hash [] set_hash

abbrev headers : List (BlockHeader × Text)
headers = (second_header, fixed (header_fields second_header)) ∷ []

verify_header_chain_unique_example :
    ◌≡◌ {A = List (BlockHeader × Text)}
      ((first_header, first_hash) ∷ headers)
      ((first_header, first_hash) ∷ headers)
    ⊎ Collision encoded
unfolding verify_header_chain verify_link verify_header
verify_header_chain_unique_example =
    verify_header_chain_unique encoded header_fields_injective checkpoint (first_header, first_hash)
      (first_header, first_hash) headers headers refl refl (omega arith) (omega arith) refl

verify_pbft_consensus_overlap_example :
    (s : List Text) × (t : List Text) × All
      (IsSigned encoded validators (commit_message (txt "A")))
      s
    × All (IsSigned encoded validators (commit_message (txt "B"))) t
    × (1 < 3 * count (λ id. holds id s && holds id t) (ids validators))
unfolding verify_pbft_consensus check_commit_signature sort_by to_ascii_lowercase trim_start_0x
verify_pbft_consensus_overlap_example =
    verify_pbft_consensus_overlap encoded (txt "A") (txt "B") first_header second_header validators
      (signatures (txt "A")) (signatures (txt "B")) refl refl

first_signed :
    IsQuorumSigned encoded false first_hash first_header validators (signatures first_hash)
unfolding compute_validator_set_hash quorum_for collect_keys sort_by to_ascii_lowercase
    trim_start_0x
first_signed = record {
  same_set = refl;
  some_validator = omega arith;
  enough = omega arith;
  one_each = (refl, tt);
  commits =
      ((txt "ab", txt "ab" ++ commit_message first_hash, refl, refl, refl, refl, refl, refl), tt);
}

verify_pbft_consensus-IsQuorumSigned_example :
    verify_pbft_consensus encoded false first_hash first_header validators (signatures first_hash)
    ≡ ok tt
verify_pbft_consensus-IsQuorumSigned_example =
    verify_pbft_consensus-IsQuorumSigned encoded false first_hash first_header validators
      (signatures first_hash) first_signed

abbrev block : Block
block =
    block_of first_header
      (publish (package_named (txt "a")) ∷ publish (package_named (txt "b")) ∷ [])
      (signatures first_hash)

abbrev proof : MerkleProof
proof = record {
  tx_hash = fixed (txt "npm:b@1");
  path = record { sibling_hash = fixed (txt "npm:a@1"); is_right = false } ∷ [];
  expected_root = fixed (txt "npm:a@1");
}

abbrev answer : LightClientResponse
answer = record {
  status = txt "verified";
  block_hash = first_hash;
  block_header = first_header;
  proof = proof;
  header_chain = (first_header, first_hash) ∷ [];
  pbft_signatures = signatures first_hash;
  active_validators = validators;
}

root_of_block : merkle_root encoded block.transactions ≡ some block.header.merkle_root
unfolding merkle_root root_from leaf_hashes next_level padded canonical
root_of_block = refl

proof_built : build_merkle_proof encoded block 1 ≡ ok proof
unfolding build_merkle_proof path_from leaf_hashes next_level padded canonical
proof_built = refl

answer_accepted : check_response encoded false checkpoint answer ≡ ok true
unfolding check_response verify_proof walk sort_by to_ascii_lowercase trim_start_0x
answer_accepted = refl

check_response_sound_example :
    (block_hash encoded block ≡ first_hash)
    × IsAnchored encoded checkpoint answer
    × ((signers : List Text) × Distinct signers
        × (quorum_for false 1 ≤ length signers)
        × All (IsSigned encoded validators (commit_message first_hash)) signers)
    × IsIncluded encoded block proof proof
check_response_sound_example =
    check_response_sound encoded length-fixed false checkpoint answer block 1 proof refl
      root_of_block proof_built answer_accepted

-- ===== src/Resolver/Merkle/Tests.antt =====
-- A block of three transactions, and the theorems on proofs at it.
use chain_registry_core.Prelude.{
  ℕ, some, List, [], ◌∷◌, ◌++◌, Text, txt, true, false, get_elem?, ok, ◌≡◌, ◌⊎◌, refl, arith,
}
use chain_registry_core.Common.Package.{canonical}
use chain_registry_core.Common.Block.{Block, Transaction, publish}
use chain_registry_core.Common.Collision.{Collision}
use chain_registry_core.Common.Merkle.{merkle_root, root_from, leaf_hashes, next_level, padded}
use chain_registry_core.Common.Merkle.Fuel.{merkle_root_total}
use chain_registry_core.Common.Sample.Encoding.{encoded, fixed, length-fixed, transaction_name}
use chain_registry_core.Common.Sample.Chain.{package_named, header_at, block_of}
use chain_registry_core.Resolver.Merkle.{
  MerkleProof, verify_proof, build_merkle_proof, path_from, walk,
}
use chain_registry_core.Resolver.Merkle.Path.{verify_proof-build_merkle_proof}
use chain_registry_core.Resolver.Merkle.Inclusion.{verify_proof_sound}

abbrev third : Transaction
third = publish (package_named (txt "c"))

abbrev three : List Transaction
three = publish (package_named (txt "a")) ∷ publish (package_named (txt "b")) ∷ third ∷ []

-- The root is the first hash, as `fixed` cuts off the others.
abbrev block : Block
block = block_of (header_at 1 [] (fixed (txt "npm:a@1")) []) three []

merkle_root_total_example :
    (root : Text) × (merkle_root encoded three ≡ some root)
    × (root_from encoded 5 (leaf_hashes encoded three) ≡ some root)
merkle_root_total_example = merkle_root_total encoded three 5 (omega arith) (omega arith)

root_of_three : merkle_root encoded three ≡ some block.header.merkle_root
unfolding merkle_root root_from leaf_hashes next_level padded canonical
root_of_three = refl

verify_proof-build_merkle_proof_example :
    (proof : MerkleProof) × (build_merkle_proof encoded block 2 ≡ ok proof)
    × (proof.tx_hash ≡ fixed (transaction_name third))
    × (proof.expected_root ≡ block.header.merkle_root)
    × (verify_proof encoded proof ≡ true)
verify_proof-build_merkle_proof_example =
    verify_proof-build_merkle_proof encoded block 2 third refl root_of_three

abbrev leaf : Text → Text
leaf name = fixed (txt "npm:" ++ (name ++ txt "@1"))

abbrev honest : MerkleProof
honest = record {
  tx_hash = leaf (txt "c");
  path =
      record { sibling_hash = leaf (txt "c"); is_right = true }
      ∷ record { sibling_hash = fixed (leaf (txt "a") ++ leaf (txt "b")); is_right = false }
      ∷ [];
  expected_root = block.header.merkle_root;
}

honest_built : build_merkle_proof encoded block 2 ≡ ok honest
unfolding build_merkle_proof path_from leaf_hashes next_level padded canonical
honest_built = refl

verify_proof_sound_example :
    ((i : ℕ) × (tx : Transaction) × (get_elem? three i ≡ some tx)
      × (fixed (transaction_name tx) ≡ honest.tx_hash))
    ⊎ Collision encoded
unfolding verify_proof walk
verify_proof_sound_example =
    verify_proof_sound encoded length-fixed block 2 honest honest honest_built root_of_three refl
      refl refl refl

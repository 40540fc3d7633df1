-- ===== src/Resolver/Merkle/Path.antt =====
-- crates/resolver/src/light_client.rs: the proof that `build_merkle_proof` makes verifies.
use chain_registry_core.Prelude.{
  ℕ, zero, suc, ◌≤◌, ◌<◌, ◌/◌, true, false, leb, some, List, [], ◌∷◌, map, Text, text_beq_iff,
  length, length-map, get_elem?, ok, ◌≡◌, refl, sym, ◌∙◌, arith,
}
use chain_registry_core.Common.Block.{Block, Transaction}
use chain_registry_core.Common.External.{External}
use chain_registry_core.Common.Merkle.{padded, next_level, root_from, leaf_hashes, merkle_root}
use chain_registry_core.Common.Merkle.Fuel.{length-next_level-padded}
use chain_registry_core.Resolver.Merkle.{
  MerkleStep, MerkleProof, climb, walk, verify_proof, path_from, build_merkle_proof,
}
use chain_registry_core.Resolver.Merkle.Pairs.{climb_pair, step_at}

pub get_elem?-some {ℓ} :
    {A : Type ℓ} (xs : List A) (i : ℕ) → i < length xs → (a : A) × (get_elem? xs i ≡ some a)
get_elem?-some [] i h = ground arith
get_elem?-some (x ∷ xs) zero h = (x, refl)
get_elem?-some (x ∷ xs) (suc i) h = get_elem?-some xs i (omega arith)

pub get_elem?-map {ℓ κ} :
    {A : Type ℓ} {B : Type κ} (f : A → B) (xs : List A) (i : ℕ) (a : A)
    → get_elem? xs i ≡ some a
    → get_elem? (map f xs) i ≡ some (f a)
get_elem?-map f [] i a h = ground arith
get_elem?-map f (x ∷ xs) zero a h = cc
get_elem?-map f (x ∷ xs) (suc i) a h = get_elem?-map f xs i a h

pub get_elem?-lt {ℓ} :
    {A : Type ℓ} (xs : List A) (i : ℕ) (a : A) → get_elem? xs i ≡ some a → i < length xs
get_elem?-lt [] i a h = ground arith
get_elem?-lt (x ∷ xs) zero a h = omega arith
get_elem?-lt (x ∷ xs) (suc i) a h = omega (arith, get_elem?-lt xs i a h)

module _ (x : External) where
  pub merkle_root_cons :
      (txs : List Transaction) (i : ℕ)
      → i < length txs
      → merkle_root x txs ≡ root_from x (length txs) (leaf_hashes x txs)
  unfolding merkle_root leaf_hashes
  merkle_root_cons [] i h = ground arith
  merkle_root_cons (tx ∷ txs) i h = refl

  -- The loops of the proof and of the root run together.
  pub walk-path_from :
      (fuel : ℕ) (level : List Text) (i : ℕ) (v : Text)
      → length level ≤ fuel
      → get_elem? level i ≡ some v
      → (path : List MerkleStep) × (path_from x fuel level i ≡ some path)
        × (root_from x fuel level ≡ some (walk x v path))
  unfolding path_from root_from walk padded next_level
  walk-path_from zero [] i v h at = ground arith
  walk-path_from zero (a ∷ level) i v h at = ground arith
  walk-path_from (suc fuel) [] i v h at = ground arith
  walk-path_from (suc fuel) (a ∷ []) zero v h at = ([], refl, at)
  walk-path_from (suc fuel) (a ∷ []) (suc i) v h at = ground arith
  walk-path_from (suc fuel) (a ∷ b ∷ level) i v h at =
      let pair = climb_pair x (a ∷ b ∷ level) i v at in
      let rest =
        walk-path_from fuel (next_level x (padded (a ∷ b ∷ level))) (i / 2)
          (climb x v (step_at i pair.0)) (omega (arith, length-next_level-padded x (a ∷ b ∷ level)))
          pair.2 in
      (step_at i pair.0 ∷ rest.0, rw (pair.1, rest.1) refl, rest.2)

  -- `verify` accepts what `build_merkle_proof` makes for any transaction of a block whose header has
  -- the root, and its `tx_hash` is the transaction's.
  pub verify_proof-build_merkle_proof :
      (block : Block) (i : ℕ) (tx : Transaction)
      → get_elem? block.transactions i ≡ some tx
      → merkle_root x block.transactions ≡ some block.header.merkle_root
      → (proof : MerkleProof) × (build_merkle_proof x block i ≡ ok proof)
        × (proof.tx_hash ≡ x.sha256_hex (x.transaction_json tx))
        × (proof.expected_root ≡ block.header.merkle_root)
        × (verify_proof x proof ≡ true)
  unfolding build_merkle_proof verify_proof merkle_root leaf_hashes
  verify_proof-build_merkle_proof block i tx at root =
      let txs = block.transactions in
      let i_lt = get_elem?-lt txs i tx at in
      let v = x.sha256_hex (x.transaction_json tx) in
      let low : leb (length txs) i ≡ false = ground (arith, i_lt) in
      let leaf = get_elem?-map (λ t. x.sha256_hex (x.transaction_json t)) txs i tx at in
      let size = length-map (λ t. x.sha256_hex (x.transaction_json t)) txs in
      let walked = walk-path_from (length txs) (leaf_hashes x txs) i v (omega (arith, size)) leaf in
      let same : some (walk x v walked.0) ≡ some block.header.merkle_root =
        sym walked.2 ∙ sym (merkle_root_cons txs i i_lt) ∙ root in
      (
        record { tx_hash = v; path = walked.0; expected_root = block.header.merkle_root },
        rw (low, leaf, walked.1) refl,
        refl,
        refl,
        (text_beq_iff (walk x v walked.0) block.header.merkle_root).1 (cc same),
      )

-- ===== src/Resolver/Merkle/Inclusion.antt =====
-- crates/resolver/src/light_client.rs: a proof of a block's root is one of a transaction of the block.
use chain_registry_core.Prelude.{
  ℕ, zero, suc, ◌<◌, true, leb, Option, none, some, List, [], ◌∷◌, map, Text, text_eq, text_beq_iff,
  length, get_elem?, ok, err, Result, ◌>>=◌, ◌≡◌, ◌⊎◌, inl, inr, refl, ap, sym, ◌∙◌, arith,
  Bool-cases,
}
use chain_registry_core.Common.Block.{Block, Transaction}
use chain_registry_core.Common.External.{External}
use chain_registry_core.Common.Merkle.{leaf_hashes, merkle_root}
use chain_registry_core.Resolver.Merkle.{
  MerkleProof, MerkleStep, ProofError, index_out_of_range, verify_proof, walk, path_from,
  build_merkle_proof, found_or,
}
use chain_registry_core.Resolver.Merkle.Path.{merkle_root_cons}
use chain_registry_core.Resolver.Merkle.Sound.{Holds-walk}
use chain_registry_core.Common.Collision.{Collision}

get_elem?-map_inv {ℓ κ} :
    {A : Type ℓ} {B : Type κ} (f : A → B) (xs : List A) (i : ℕ) (b : B)
    → get_elem? (map f xs) i ≡ some b
    → (a : A) × (get_elem? xs i ≡ some a) × (f a ≡ b)
get_elem?-map_inv f [] i b h = ground arith
get_elem?-map_inv f (x ∷ xs) zero b h = (x, refl, cc h)
get_elem?-map_inv f (x ∷ xs) (suc i) b h = get_elem?-map_inv f xs i b h

made : Option Text → Option (List MerkleStep) → Text → Result ProofError MerkleProof
made hash path root = found_or hash >>= λ t.
    found_or path >>= λ p. ok (record { tx_hash = t; path = p; expected_root = root })

made-ok :
    (hash : Option Text) (path : Option (List MerkleStep)) (root : Text) (proof : MerkleProof)
    → made hash path root ≡ ok proof
    → (t : Text) × (hash ≡ some t) × (path ≡ some proof.path)
unfolding made
made-ok none path root proof h = ground arith
made-ok (some t) none root proof h = ground arith
made-ok (some t) (some p) root proof h = (t, refl, cc h)

module _ (x : External) where
  open x use {sha256_hex, transaction_json}

  build_merkle_proof-ok :
      (block : Block) (k : ℕ) (proof : MerkleProof)
      → build_merkle_proof x block k ≡ ok proof
      → (k < length block.transactions)
        × (path_from x (length block.transactions) (leaf_hashes x block.transactions) k
            ≡ some proof.path)
  unfolding build_merkle_proof made
  build_merkle_proof-ok block k proof h = elim (Bool-cases (leb (length block.transactions) k)) [
    | inl out ↦ let bad : err index_out_of_range ≡ ok proof = rw out at h in ground (arith, bad)
    | inr low ↦ (ground (arith, low), (made-ok _ _ block.header.merkle_root proof (rw low at h)).2)
  ]

  leaf_size :
      (size : (t : Text) → length (sha256_hex t) ≡ 64) (txs : List Transaction) (j : ℕ) (h : Text)
      → get_elem? (leaf_hashes x txs) j ≡ some h
      → length h ≡ 64
  unfolding leaf_hashes
  leaf_size size txs j h at =
      let tx = get_elem?-map_inv (λ t. sha256_hex (transaction_json t)) txs j h at in
      sym (ap length tx.2) ∙ size (transaction_json tx.0)

  -- A proof of a block's root that verifies, as long as one that `build_merkle_proof` makes for the
  -- block and with a hash of 64 characters, holds a transaction of the block, or two texts have one
  -- hash.
  pub verify_proof_sound :
      (size : (t : Text) → length (sha256_hex t) ≡ 64) (block : Block) (k : ℕ)
      (honest proof : MerkleProof)
      → build_merkle_proof x block k ≡ ok honest
      → merkle_root x block.transactions ≡ some block.header.merkle_root
      → proof.expected_root ≡ block.header.merkle_root
      → length proof.path ≡ length honest.path
      → length proof.tx_hash ≡ 64
      → verify_proof x proof ≡ true
      → ((i : ℕ) × (tx : Transaction) × (get_elem? block.transactions i ≡ some tx)
          × (sha256_hex (transaction_json tx) ≡ proof.tx_hash))
        ⊎ Collision x
  unfolding verify_proof leaf_hashes
  verify_proof_sound size block k honest proof b root e same l v =
      let txs = block.transactions in
      let built = build_merkle_proof-ok block k honest b in
      let walked = (text_beq_iff (walk x proof.tx_hash proof.path) proof.expected_root).0 v ∙ e in
      let rooted = sym (merkle_root_cons x txs k built.0) ∙ root in
      let held =
        Holds-walk x size (length txs) (leaf_hashes x txs) k honest.path proof.path proof.tx_hash
          block.header.merkle_root (leaf_size size txs) built.1 rooted same walked l in
      elim held [
        | inr c ↦ inr c
        | inl at ↦
            let tx =
              get_elem?-map_inv (λ t. sha256_hex (transaction_json t)) txs at.0 proof.tx_hash
                at.1 in
            inl (at.0, tx.0, tx.1, tx.2)
      ]

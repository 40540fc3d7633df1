-- ===== src/Resolver/LightClient/Response.antt =====
-- crates/resolver/src/light_client.rs: what an accepted answer shows.
use chain_registry_core.Prelude.{
  ℕ, ◌≤◌, Bool, true, false, not, nat_beq, nat_beq_iff, ◌&&◌, ltb, none, some, List, Text, txt,
  text_eq, text_beq, text_beq_iff, nat_eq, ◌==◌, length, get_elem?, All, ok, ◌>>◌, ◌≡◌, ◌⊎◌, inl,
  inr, sym, ◌∙◌, ap, arith, Bool-cases, Option-cases,
}
use chain_registry_core.Prelude.Keys.{Distinct}
use chain_registry_core.Common.Block.{Block, BlockHeader, Transaction}
use chain_registry_core.Common.External.{External, block_hash}
use chain_registry_core.Common.Collision.{Collision}
use chain_registry_core.Common.Merkle.{merkle_root}
use chain_registry_core.Resolver.Merkle.{MerkleProof, verify_proof, build_merkle_proof}
use chain_registry_core.Resolver.Merkle.Inclusion.{verify_proof_sound}
use chain_registry_core.Resolver.LightClient.{
  LightClientResponse, Checkpoint, ensure, last, relevant, no_headers, check_anchor, quorum_for,
  commit_message, verify_header, verify_header_chain, verify_pbft_consensus, check_response,
  bad_merkle_proof, merkle_root_mismatch, omitted_terminal, terminal_mismatch,
}
use chain_registry_core.Resolver.LightClient.Chain.{ensure-ok, then-ok, verify_header-ok, last_hash}
use chain_registry_core.Resolver.LightClient.Quorum.{IsSigned, verify_pbft_consensus_sound}

module _ (x : External) where
  open x use {sha256_hex, header_json, transaction_json}

  -- The block of the answer is the checkpoint's, or the last of a header chain from it.
  abbrev pub IsAnchored : Checkpoint → LightClientResponse → Type 0
  IsAnchored c r =
      (r.block_hash ≡ c.hash)
      ⊎ ((headers : List (BlockHeader × Text)) × (verify_header_chain x headers c ≡ ok tt)
          × (last_hash (last headers) ≡ some r.block_hash))

  check_anchor-ok :
      (c : Checkpoint) (r : LightClientResponse) (headers : List (BlockHeader × Text))
      → check_anchor x c r headers (last headers) ≡ ok tt
      → IsAnchored c r
  check_anchor-ok c r headers h = elim (Option-cases (last headers)) [
    | inl none_h ↦
        let e : check_anchor x c r headers none ≡ ok tt = rw none_h at h in
        let same : text_beq r.block_hash c.hash ≡ true = ground (arith, ensure-ok _ _ e) in
        inl ((text_beq_iff _ _).0 same)
    | inr ((header, hash), some_h) ↦
        let e : check_anchor x c r headers (some (header, hash)) ≡ ok tt = rw some_h at h in
        let parts =
          then-ok
            (ensure (hash == r.block_hash && header.height == r.block_header.height)
              terminal_mismatch)
            _ tt e in
        let same : text_beq hash r.block_hash ≡ true = ground (arith, ensure-ok _ _ parts.0) in
        inr (headers, parts.1, ap last_hash some_h ∙ ap some ((text_beq_iff _ _).0 same))
  ]

  -- What the checks of an accepted answer have found.
  abbrev pub IsChecked : Bool → Checkpoint → LightClientResponse → Type 0
  IsChecked small c r =
      (verify_proof x r.proof ≡ true)
      × (r.proof.expected_root ≡ r.block_header.merkle_root)
      × (sha256_hex (header_json r.block_header) ≡ r.block_hash)
      × (verify_pbft_consensus x small r.block_hash r.block_header r.active_validators
            r.pbft_signatures
          ≡ ok tt)
      × IsAnchored c r

  check_response-ok :
      (small : Bool) (c : Checkpoint) (r : LightClientResponse)
      → check_response x small c r ≡ ok true
      → IsChecked small c r
  unfolding check_response
  check_response-ok small c r h = elim (Bool-cases (r.status == txt "verified")) [
    | inr other ↦ let bad : ok false ≡ ok true = rw other at h in ground (arith, bad)
    | inl status ↦
        let m1 = ensure (verify_proof x r.proof) bad_merkle_proof in
        let m2 =
          ensure (r.proof.expected_root == r.block_header.merkle_root) merkle_root_mismatch in
        let m3 = verify_header x r.block_header r.block_hash r.block_header.height in
        let m4 =
          verify_pbft_consensus x small r.block_hash r.block_header r.active_validators
            r.pbft_signatures in
        let m5 =
          ensure (not (ltb c.height r.block_header.height && no_headers (relevant c r)))
            omitted_terminal in
        let m6 = check_anchor x c r (relevant c r) (last (relevant c r)) in
        let passed : m1 >> m2 >> m3 >> m4 >> m5 >> m6 >> ok true ≡ ok true = rw status at h in
        let p6 = then-ok (m1 >> m2 >> m3 >> m4 >> m5 >> m6) (ok true) true passed in
        let p5 = then-ok (m1 >> m2 >> m3 >> m4 >> m5) m6 tt p6.0 in
        let p4 = then-ok (m1 >> m2 >> m3 >> m4) m5 tt p5.0 in
        let p3 = then-ok (m1 >> m2 >> m3) m4 tt p4.0 in
        let p2 = then-ok (m1 >> m2) m3 tt p3.0 in
        let p1 = then-ok m1 m2 tt p2.0 in
        (
          ensure-ok _ _ p1.0,
          (text_beq_iff _ _).0 (ensure-ok _ _ p1.1),
          (verify_header-ok x r.block_header r.block_hash r.block_header.height p2.1).0,
          p3.1,
          check_anchor-ok c r (relevant c r) p5.1,
        )
  ]

  -- The proof is of another length than one for the block, or its hash is not one of 64 characters,
  -- or it is of one of the transactions, or two texts have one hash.
  abbrev pub IsIncluded : Block → MerkleProof → MerkleProof → Type 0
  IsIncluded block honest proof =
      (nat_beq (length proof.path) (length honest.path) ≡ false)
      ⊎ ((nat_beq (length proof.tx_hash) 64 ≡ false)
          ⊎ (((i : ℕ) × (tx : Transaction) × (get_elem? block.transactions i ≡ some tx)
                × (sha256_hex (transaction_json tx) ≡ proof.tx_hash))
              ⊎ Collision x))

  verify_proof-IsIncluded :
      (size : (t : Text) → length (sha256_hex t) ≡ 64) (block : Block) (k : ℕ)
      (honest proof : MerkleProof)
      → build_merkle_proof x block k ≡ ok honest
      → merkle_root x block.transactions ≡ some block.header.merkle_root
      → proof.expected_root ≡ block.header.merkle_root
      → verify_proof x proof ≡ true
      → IsIncluded block honest proof
  verify_proof-IsIncluded size block k honest proof made root expected proved =
      elim (Bool-cases (nat_beq (length proof.path) (length honest.path))) [
        | inr other ↦ inl other
        | inl long ↦ elim (Bool-cases (nat_beq (length proof.tx_hash) 64)) [
          | inr short ↦ inr (inl short)
          | inl full ↦ inr (
              inr (
                verify_proof_sound x size block k honest proof made root expected
                  ((nat_beq_iff _ _).0 long) ((nat_beq_iff _ _).0 full) proved))
        ]
      ]

  -- Where every hash has 64 characters: an accepted answer about a block with the answer's header,
  -- the root of its transactions and a proof for one of them. The block has the hash of the answer, is
  -- anchored at the checkpoint, and distinct validators of the answer's list, as many as a quorum,
  -- signed it; and the answer's proof, if it is as long as the block's and its hash has 64 characters,
  -- is of one of its transactions, or two texts have one hash.
  pub check_response_sound :
      (size : (t : Text) → length (sha256_hex t) ≡ 64) (small : Bool) (c : Checkpoint)
      (r : LightClientResponse) (block : Block) (k : ℕ) (honest : MerkleProof)
      → block.header ≡ r.block_header
      → merkle_root x block.transactions ≡ some block.header.merkle_root
      → build_merkle_proof x block k ≡ ok honest
      → check_response x small c r ≡ ok true
      → (block_hash x block ≡ r.block_hash)
        × IsAnchored c r
        × ((signers : List Text) × Distinct signers
            × (quorum_for small (length r.active_validators) ≤ length signers)
            × All (IsSigned x r.active_validators (commit_message r.block_hash)) signers)
        × IsIncluded block honest r.proof
  unfolding block_hash
  check_response_sound size small c r block k honest same root made h =
      let (proved, rooted, hashed, signed, anchored) = check_response-ok small c r h in
      (
        ap (λ b. sha256_hex (header_json b)) same ∙ hashed,
        anchored,
        (verify_pbft_consensus_sound x small r.block_hash r.block_header r.active_validators
            r.pbft_signatures signed).1,
        verify_proof-IsIncluded size block k honest r.proof made root
            (rooted ∙ ap (λ b. b.merkle_root) (sym same)) proved,
      )

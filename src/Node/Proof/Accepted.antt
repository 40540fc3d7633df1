-- ===== src/Node/Proof/Accepted.antt =====
-- crates/node/src/proof.rs and crates/resolver/src/light_client.rs: a client accepts what the node
-- answers for a chain that starts at the client's checkpoint.
use chain_registry_core.Prelude.{
  ℕ, zero, suc, ◌+◌, ◌-◌, ◌^◌, ◌%◌, ◌<◌, Bool, true, false, ltb, some, List, [], ◌∷◌, ◌++◌, Text,
  text_eq, text_beq, text_beq_iff, nat_eq, nat_beq, nat_beq_iff, ◌==◌, filterb, get_elem?, ok, ◌≡◌,
  refl, sym, subst, ap, arith, Bool-cases, inl, inr,
}
use chain_registry_core.Common.Package.{ChainRecord, verified, canonical}
use chain_registry_core.Common.Block.{
  Block, BlockHeader, Transaction, publish, revoke, slash, validator_join, validator_leave,
  rotate_publisher_key,
}
use chain_registry_core.Common.External.{External, block_hash}
use chain_registry_core.Common.Merkle.{merkle_root}
use chain_registry_core.Consensus.ValidatorSet.{Validator}
use chain_registry_core.Node.ChainStore.{
  ChainStore, get_package, get_block_by_hash, get_block_by_height,
}
use chain_registry_core.Node.Proof.{position_from, position, headers_up, respond, build_proof}
use chain_registry_core.Resolver.Merkle.{MerkleProof, verify_proof}
use chain_registry_core.Resolver.Merkle.Path.{verify_proof-build_merkle_proof}
use chain_registry_core.Resolver.LightClient.Complete.{
  IsQuorumSigned, verify_pbft_consensus-IsQuorumSigned,
}
use chain_registry_core.Resolver.LightClient.{
  Checkpoint, LightClientResponse, last, no_headers, relevant, verify_header, verify_link,
  verify_links, verify_header_chain, verify_pbft_consensus, check_response,
}

-- The transaction at the place `i`, counted from `j`, publishes the package.
abbrev IsPublishAt : ℕ → Text → List Transaction → ℕ → Type 0
IsPublishAt j name txs i =
    (k : ℕ) × (r : ChainRecord) × (i ≡ j + k)
    × (get_elem? txs k ≡ some (publish r))
    × (canonical r.id ≡ name)

IsPublishAt-cons :
    (j : ℕ) (name : Text) (tx : Transaction) (txs : List Transaction) (i : ℕ)
    → IsPublishAt (suc j) name txs i
    → IsPublishAt j name (tx ∷ txs) i
IsPublishAt-cons j name tx txs i (k, r, e, at, named) = (suc k, r, omega (arith, e), at, named)

position_from-publish :
    (j : ℕ) (name : Text) (txs : List Transaction) (i : ℕ)
    → position_from j name txs ≡ some i
    → IsPublishAt j name txs i
position_from-publish j name [] i h = ground (arith, h)
position_from-publish j name (publish r ∷ txs) i h = elim (Bool-cases (canonical r.id == name)) [
  | inl hit ↦
      let e : some j ≡ some i = rw hit at h in
      let same : i ≡ j = cc e in (0, r, omega (arith, same), refl, (text_beq_iff _ _).0 hit)
  | inr miss ↦
      IsPublishAt-cons j name (publish r) txs i
        (position_from-publish (suc j) name txs i (rw miss at h))
]
position_from-publish j name (revoke revoked reason by evidence ∷ txs) i h =
    IsPublishAt-cons j name _ txs i (position_from-publish (suc j) name txs i h)
position_from-publish j name (rotate_publisher_key prefix old new s t time nonce ∷ txs) i h =
    IsPublishAt-cons j name _ txs i (position_from-publish (suc j) name txs i h)
position_from-publish j name (slash v amount reason ∷ txs) i h =
    IsPublishAt-cons j name _ txs i (position_from-publish (suc j) name txs i h)
position_from-publish j name (validator_join v key stake ∷ txs) i h =
    IsPublishAt-cons j name _ txs i (position_from-publish (suc j) name txs i h)
position_from-publish j name (validator_leave v ∷ txs) i h =
    IsPublishAt-cons j name _ txs i (position_from-publish (suc j) name txs i h)

text_beq_self : (t : Text) → text_beq t t ≡ true
text_beq_self t = (text_beq_iff t t).1 refl

last-append :
    (ts : List (BlockHeader × Text)) (t : BlockHeader × Text) → last (ts ++ t ∷ []) ≡ some t
last-append [] t = refl
last-append (u ∷ []) t = refl
last-append (u ∷ v ∷ ts) t = last-append (v ∷ ts) t

no_headers-append :
    (ts : List (BlockHeader × Text)) (t : BlockHeader × Text) → no_headers (ts ++ t ∷ []) ≡ false
no_headers-append [] t = refl
no_headers-append (u ∷ ts) t = refl

module _ (x : External) where
  -- From the height `h` on, `count` blocks and then `b`, each after the one before and the first after
  -- the hash `prev`.
  abbrev pub IsLinked : ChainStore → Block → Text → ℕ → ℕ → Type 0
  IsLinked s b prev h zero = (b.header.height ≡ h) × (b.header.prev_hash ≡ prev)
  IsLinked s b prev h (suc count) =
      (a : Block) × (get_block_by_height h s ≡ some a)
      × (a.header.height ≡ h)
      × (a.header.prev_hash ≡ prev)
      × IsLinked s b (block_hash x a) (h + 1) count

  abbrev chain_from : ChainStore → Block → ℕ → ℕ → List (BlockHeader × Text)
  chain_from s b h count = headers_up x h count s ++ (b.header, block_hash x b) ∷ []

  verify_link-linked :
      (height : ℕ) (prev : Text) (a : Block)
      → a.header.height ≡ height + 1
      → a.header.prev_hash ≡ prev
      → height + 1 < 2 ^ 64
      → verify_link x height prev a.header (block_hash x a) ≡ ok tt
  unfolding verify_link verify_header block_hash
  verify_link-linked height prev a h p lt =
      let hashed = text_beq_self (block_hash x a) in
      let at : nat_beq a.header.height ((height + 1) % 2 ^ 64) ≡ true =
        (nat_beq_iff _ _).1 (omega (arith, h, lt)) in
      let after : text_beq a.header.prev_hash prev ≡ true = (text_beq_iff _ _).1 p in
      rw (hashed, at, after) refl

  verify_links-linked :
      (s : ChainStore) (b : Block) (prev : Text) (height count : ℕ)
      → IsLinked s b prev (height + 1) count
      → height + 1 + count < 2 ^ 64
      → verify_links x height prev (chain_from s b (height + 1) count) ≡ ok tt
  unfolding verify_links headers_up
  verify_links-linked s b prev height zero h lt =
      rw (verify_link-linked height prev b h.0 h.1 (omega (arith, lt))) refl
  verify_links-linked s b prev height (suc count) (a, at, here, after, rest) lt =
      let link = verify_link-linked height prev a here after (omega (arith, lt)) in
      let later =
        verify_links-linked s b (block_hash x a) (height + 1) count rest (omega (arith, lt)) in
      let tail : verify_links x a.header.height (block_hash x a)
            (chain_from s b (height + 1 + 1) count)
          ≡ ok tt =
        subst
          (λ n. verify_links x n (block_hash x a) (chain_from s b (height + 1 + 1) count) ≡ ok tt)
          (sym here) later in
      rw (at, link) tail

  filterb-linked :
      (s : ChainStore) (b : Block) (prev : Text) (h count low : ℕ)
      → IsLinked s b prev h count
      → low < h
      → filterb (λ (t : BlockHeader × Text). ltb low (t.0).height) (chain_from s b h count)
        ≡ chain_from s b h count
  unfolding headers_up
  filterb-linked s b prev h zero low linked lt =
      let above : ltb low b.header.height ≡ true = ground (arith, linked.0, lt) in rw above refl
  filterb-linked s b prev h (suc count) low (a, at, here, after, rest) lt =
      let above : ltb low a.header.height ≡ true = ground (arith, here, lt) in
      let tail = filterb-linked s b (block_hash x a) (h + 1) count low rest (omega (arith, lt)) in
      rw (at, above) (ap ((a.header, block_hash x a) ∷◌) tail)

  IsLinked-height :
      (s : ChainStore) (b : Block) (prev : Text) (h count : ℕ)
      → IsLinked s b prev h count
      → b.header.height ≡ h + count
  IsLinked-height s b prev h zero linked = omega (arith, linked.0)
  IsLinked-height s b prev h (suc count) (a, at, here, after, rest) =
      omega (arith, IsLinked-height s b (block_hash x a) (h + 1) count rest)

  verify_header_self :
      (b : Block) → verify_header x b.header (block_hash x b) b.header.height ≡ ok tt
  unfolding verify_header block_hash
  verify_header_self b =
      let hashed = text_beq_self (block_hash x b) in
      let height : nat_beq b.header.height b.header.height ≡ true = (nat_beq_iff _ _).1 refl in
      rw (hashed, height) refl

  check_response-respond :
      (small : Bool) (s : ChainStore) (vs : List Validator) (c : Checkpoint) (b : Block)
      (proof : MerkleProof)
      → verify_proof x proof ≡ true
      → proof.expected_root ≡ b.header.merkle_root
      → verify_pbft_consensus x small (block_hash x b) b.header vs b.pbft_signatures ≡ ok tt
      → c.height ≡ 0
      → IsLinked s b c.hash 1 (b.header.height - 1)
      → b.header.height < 2 ^ 64
      → check_response x small c (respond x b s vs proof) ≡ ok true
  unfolding check_response verify_header_chain
  check_response-respond small s vs c b proof proved rooted signed start linked lt =
      let count = b.header.height - 1 in
      let size = IsLinked-height s b c.hash 1 count linked in
      let chain = chain_from s b 1 count in
      let root : text_beq proof.expected_root b.header.merkle_root ≡ true =
        (text_beq_iff _ _).1 rooted in
      let kept : relevant c (respond x b s vs proof) ≡ chain =
        filterb-linked s b c.hash 1 count c.height linked (omega (arith, start)) in
      let links : verify_links x 0 c.hash chain ≡ ok tt =
        verify_links-linked s b c.hash 0 count linked (omega (arith, size, lt)) in
      let from : verify_links x c.height c.hash chain ≡ ok tt = rw start links in
      let terminal = last-append (headers_up x 1 count s) (b.header, block_hash x b) in
      let some_headers = no_headers-append (headers_up x 1 count s) (b.header, block_hash x b) in
      let above : ltb c.height b.header.height ≡ true = ground (arith, start, size) in
      let hash = text_beq_self (block_hash x b) in
      let height : nat_beq b.header.height b.header.height ≡ true = (nat_beq_iff _ _).1 refl in
      rw
        (
          proved,
          root,
          verify_header_self b,
          signed,
          kept,
          some_headers,
          terminal,
          hash,
          height,
          from,
          above,
        )
        refl

  -- On a chain that is linked from the client's checkpoint at height 0 up to the block, the client
  -- accepts what the node answers for a package that the block publishes, and the proof is of a record
  -- of that package. The record is verified, the header has the root of the transactions and the hash
  -- of the node's validators, and the block's signatures are commits of distinct ones of these, all of
  -- them valid for the keys in the list, and as many as a quorum.
  pub build_proof-accepted :
      (small : Bool) (name : Text) (s : ChainStore) (vs : List Validator) (c : Checkpoint)
      (r : ChainRecord) (b : Block) (i : ℕ)
      → get_package name s ≡ some r
      → r.status ≡ verified
      → get_block_by_hash r.block_hash s ≡ some b
      → position name b.transactions ≡ some i
      → merkle_root x b.transactions ≡ some b.header.merkle_root
      → IsQuorumSigned x small (block_hash x b) b.header vs b.pbft_signatures
      → c.height ≡ 0
      → IsLinked s b c.hash 1 (b.header.height - 1)
      → b.header.height < 2 ^ 64
      → (response : LightClientResponse) × (build_proof x name s vs ≡ ok (some response))
        × (check_response x small c response ≡ ok true)
        × ((q : ChainRecord) × (canonical q.id ≡ name)
            × (response.proof.tx_hash ≡ x.sha256_hex (x.transaction_json (publish q))))
  unfolding build_proof
  build_proof-accepted small name s vs c r b i found ok_status stored at root signed start linked
        lt =
      let (k, q, e, here, named) = position_from-publish 0 name b.transactions i at in
      let index : i ≡ k = omega (arith, e) in
      let (proof, made, hashed, rooted, proved) =
        verify_proof-build_merkle_proof x b i (publish q) (rw index here) root in
      (
        respond x b s vs proof,
        rw (found, ok_status, stored, at, made) refl,
        check_response-respond small s vs c b proof proved rooted
            (verify_pbft_consensus-IsQuorumSigned x small (block_hash x b) b.header vs
              b.pbft_signatures signed)
            start linked lt,
        (q, named, hashed),
      )

-- ===== src/Node/ChainStore/Reorg.antt =====
-- crates/node/src/chain_store.rs: a rollback and a rebuilt index, which follow each other where the
-- node leaves a fork.
use chain_registry_core.Prelude.{
  ℕ, zero, suc, ◌+◌, ◌≤◌, Bool, true, false, none, some, List, [], ◌∷◌, Text, text_eq, text_leb,
  nat_eq, leb, ◌==◌, if◌then◌else◌, All, ◌≡◌, refl, sym, ◌∙◌, ap, arith, Bool-cases, Option-cases,
  inl, inr,
}
use chain_registry_core.Prelude.Map.{Map, lookup, IsMap}
use chain_registry_core.Prelude.Ordered.{put_all, put_all-IsMap}
use chain_registry_core.Common.Package.{ChainRecord, canonical}
use chain_registry_core.Common.Block.{
  Block, Transaction, publish, revoke, slash, validator_join, validator_leave, rotate_publisher_key,
}
use chain_registry_core.Common.External.{External, block_hash}
use chain_registry_core.Node.ChainStore.{
  blocks_up, ChainStore, get_block_by_height, get_package, tip_height, rollback_to_height,
  rebuild_package_index, index_batch,
}
use chain_registry_core.Node.ChainStore.Valid.{IsStore}
use chain_registry_core.Node.ChainStore.Index.{last_published, effects-none, lookup-index_batch}
use chain_registry_core.Node.ChainStore.Rollback.{
  rollback_to_height_lem, rollback_to_height-IsStore,
}
use chain_registry_core.Node.ChainStore.Rebuild.{index_blocks, rebuild_package_index_lem}

-- Whether a transaction publishes the package.
unfoldable pub publishes : Text → List Transaction → Bool
publishes name [] = false
publishes name (publish r ∷ txs) = if canonical r.id == name then true else publishes name txs
publishes name (tx ∷ txs) = publishes name txs

last_published-none :
    (hash name : Text) (txs : List Transaction)
    → publishes name txs ≡ false
    → last_published hash name txs none ≡ none
unfolding publishes last_published
last_published-none hash name [] h = refl
last_published-none hash name (publish r ∷ txs) h =
    ground (arith, h, last_published-none hash name txs)
last_published-none hash name (revoke revoked reason by evidence ∷ txs) h =
    last_published-none hash name txs h
last_published-none hash name (rotate_publisher_key prefix old new s t time nonce ∷ txs) h =
    last_published-none hash name txs h
last_published-none hash name (slash v amount reason ∷ txs) h = last_published-none hash name txs h
last_published-none hash name (validator_join v key stake ∷ txs) h =
    last_published-none hash name txs h
last_published-none hash name (validator_leave v ∷ txs) h = last_published-none hash name txs h

abbrev IsSilent : Text → Block → Type 0
IsSilent name b = publishes name b.transactions ≡ false

blocks_up-All :
    (P : Block → Type 0) (count h : ℕ) (s : ChainStore)
    → ((k : ℕ) (b : Block) → get_block_by_height k s ≡ some b → P b)
    → All P (blocks_up h count s)
unfolding blocks_up
blocks_up-All P zero h s each = tt
blocks_up-All P (suc count) h s each = elim (Option-cases (get_block_by_height h s)) [
  | inl none_h ↦ rw none_h (blocks_up-All P count (h + 1) s each)
  | inr (b, some_h) ↦ rw some_h (each h b some_h, blocks_up-All P count (h + 1) s each)
]

module _ (x : External) where
  index_blocks-none :
      (name : Text) (bs : List Block) (m : Map Text ChainRecord)
      → IsMap m
      → lookup name m ≡ none
      → All (IsSilent name) bs
      → lookup name (index_blocks x bs m) ≡ none
  unfolding index_blocks
  index_blocks-none name [] m one h silent = h
  index_blocks-none name (b ∷ bs) m one h silent =
      let batch = index_batch (block_hash x b) m b.transactions in
      let after : lookup name (put_all text_leb batch m) ≡ none =
        lookup-index_batch (block_hash x b) name m m b.transactions one
        ∙ rw h (effects-none (block_hash x b) name b.transactions none)
        ∙ last_published-none (block_hash x b) name b.transactions silent.0 in
      index_blocks-none name bs (put_all text_leb batch m) (put_all-IsMap text_leb batch m one)
        after silent.1

  IsSilent-below :
      (name : Text) (height : ℕ) (s : ChainStore)
      → IsStore x s
      → ((h : ℕ) (b : Block)
          → h ≤ height
          → get_block_by_height h s ≡ some b
          → publishes name b.transactions ≡ false)
      → (k : ℕ) (b : Block) → get_block_by_height k (rollback_to_height height s).1 ≡ some b
      → IsSilent name b
  IsSilent-below name height s valid each k b found =
      let left = (rollback_to_height_lem x k height [] s valid).0 in
      elim (Bool-cases (leb k height)) [
        | inl low ↦ each k b (ground (arith, low)) (sym (left ∙ rw low refl) ∙ found)
        | inr high ↦
            let bad : none ≡ some b = sym (left ∙ rw high refl) ∙ found in ground (arith, bad)
      ]

  -- In a well-formed store, after a rollback to a height and a rebuilt index, a package that no
  -- canonical block up to that height publishes is not in the index.
  pub reorg_forgets :
      (name : Text) (height : ℕ) (s : ChainStore)
      → IsStore x s
      → ((h : ℕ) (b : Block)
          → h ≤ height
          → get_block_by_height h s ≡ some b
          → publishes name b.transactions ≡ false)
      → get_package name (rebuild_package_index x (rollback_to_height height s).1) ≡ none
  unfolding get_package
  reorg_forgets name height s valid each =
      let back = (rollback_to_height height s).1 in
      let kept = rollback_to_height-IsStore x height s valid in
      let silent =
        blocks_up-All (IsSilent name) (tip_height back + 1) 0 back
          (IsSilent-below name height s valid each) in
      ap (lookup name) (rebuild_package_index_lem x back 0 [] kept).0
      ∙ index_blocks-none name (blocks_up 0 (tip_height back + 1) back) [] tt refl silent

-- ===== src/Node/ChainStore/Rebuild.antt =====
-- crates/node/src/chain_store.rs: the index that is rebuilt is that of the canonical blocks.
use chain_registry_core.Prelude.{
  ℕ, zero, suc, ◌+◌, Option, none, some, List, [], ◌∷◌, Text, text_eq, text_beq_iff, text_leb,
  nat_eq, leb, ◌≡◌, refl, sym, ◌∙◌, subst, ap, arith, Option-cases, inl, inr,
}
use chain_registry_core.Prelude.Map.{Map, lookup, lookup-All}
use chain_registry_core.Prelude.Ordered.{put_all, lookup-put}
use chain_registry_core.Common.Package.{ChainRecord}
use chain_registry_core.Common.Block.{Block}
use chain_registry_core.Common.External.{External, block_hash}
use chain_registry_core.Node.ChainStore.{
  with_block, blocks_up, ChainStore, get_block_by_height, get_block_by_hash, block_at, tip_height,
  insert_block, reinsert, replay, rebuild_package_index, index_batch,
}
use chain_registry_core.Node.ChainStore.Valid.{IsStore, IsStored}

-- The same block is found under every height and every hash.
abbrev pub IsSameChain : ChainStore → ChainStore → Type 0
IsSameChain s t =
    ((h : ℕ) → lookup h s.by_height ≡ lookup h t.by_height)
    × ((hash : Text) → lookup hash s.by_hash ≡ lookup hash t.by_hash)

block_at-IsSameChain :
    (s t : ChainStore) (o : Option Text) → IsSameChain s t → block_at o s ≡ block_at o t
unfolding get_block_by_hash
block_at-IsSameChain s t none same = refl
block_at-IsSameChain s t (some hash) same = same.1 hash

get_block_by_height-IsSameChain :
    (s t : ChainStore) (h : ℕ) → IsSameChain s t → get_block_by_height h s ≡ get_block_by_height h t
unfolding get_block_by_height
get_block_by_height-IsSameChain s t h same =
    block_at-IsSameChain s t (lookup h s.by_height) same ∙ ap (λ o. block_at o t) (same.0 h)

module _ (x : External) where
  -- The index after the blocks, from the index before them.
  unfoldable pub index_blocks : List Block → Map Text ChainRecord → Map Text ChainRecord
  index_blocks [] m = m
  index_blocks (b ∷ bs) m =
      index_blocks bs (put_all text_leb (index_batch (block_hash x b) m b.transactions) m)

  get_block_by_height-IsStored :
      (s : ChainStore) (h : ℕ) (b : Block)
      → IsStore x s
      → get_block_by_height h s ≡ some b
      → (b.header.height ≡ h)
        × (lookup h s.by_height ≡ some (block_hash x b))
        × (lookup (block_hash x b) s.by_hash ≡ some b)
  unfolding get_block_by_height get_block_by_hash
  get_block_by_height-IsStored s h b valid found = elim (Option-cases (lookup h s.by_height)) [
    | inl none_h ↦ let bad : none ≡ some b = rw none_h at found in ground (arith, bad)
    | inr (hash, some_h) ↦
        let stored = lookup-All (IsStored x s.by_hash) h s.by_height valid.2 some_h in
        let read : lookup hash s.by_hash ≡ some b = rw some_h at found in
        let same : stored.0 ≡ b = cc (stored.1, read) in
        let height : b.header.height ≡ h = sym (ap (λ c. c.header.height) same) ∙ stored.2 in
        let hashed : hash ≡ block_hash x b = sym stored.3 ∙ ap (block_hash x) same in
        (height, some_h ∙ ap some hashed, ap (λ k. lookup k s.by_hash) (sym hashed) ∙ read)
  ]

  insert_block-IsSameChain :
      (s t : ChainStore) (h : ℕ) (b : Block)
      → IsStore x s
      → IsSameChain s t
      → get_block_by_height h s ≡ some b
      → IsSameChain s (insert_block x b t)
  unfolding insert_block
  insert_block-IsSameChain s t h b valid same found =
      let stored = get_block_by_height-IsStored s h b valid found in
      (
        λ k. ground (
          arith,
          stored.0,
          stored.1,
          same.0 k,
          lookup-put leb b.header.height k (block_hash x b) t.by_height,
        ),
        λ k. ground (
          arith,
          stored.2,
          same.1 k,
          text_beq_iff k (block_hash x b),
          lookup-put text_leb (block_hash x b) k b t.by_hash,
        ),
      )

  -- What `replay` makes of a store with the chain of `s`.
  abbrev IsReplayed : ℕ → ℕ → ChainStore → ChainStore → Type 0
  IsReplayed count h s t =
      ((replay x h count t).packages ≡ index_blocks (blocks_up h count s) t.packages)
      × IsSameChain s (replay x h count t)

  replay_step :
      (count h : ℕ) (s t : ChainStore) (o : Option Block)
      → IsStore x s
      → IsSameChain s t
      → get_block_by_height h s ≡ o
      → ((u : ChainStore) → IsSameChain s u → IsReplayed count (h + 1) s u)
      → ((replay x (h + 1) count (reinsert x o t)).packages
          ≡ index_blocks (with_block o (blocks_up (h + 1) count s)) t.packages)
        × IsSameChain s (replay x (h + 1) count (reinsert x o t))
  unfolding index_blocks insert_block
  replay_step count h s t none valid same found rest = rest t same
  replay_step count h s t (some b) valid same found rest =
      rest (insert_block x b t) (insert_block-IsSameChain s t h b valid same found)

  replay_lem :
      (count h : ℕ) (s t : ChainStore) → IsStore x s → IsSameChain s t → IsReplayed count h s t
  unfolding replay index_blocks blocks_up
  replay_lem zero h s t valid same = (refl, same)
  replay_lem (suc count) h s t valid same =
      subst
        (λ o.
          ((replay x (h + 1) count (reinsert x o t)).packages
            ≡ index_blocks (with_block (get_block_by_height h s) (blocks_up (h + 1) count s))
                t.packages)
          × IsSameChain s (replay x (h + 1) count (reinsert x o t)))
        (get_block_by_height-IsSameChain s t h same)
        (replay_step count h s t (get_block_by_height h s) valid same refl
          (λ u same_u. replay_lem count (h + 1) s u valid same_u))

  -- On a well-formed store the rebuilt index is that of the canonical blocks in their order, whatever
  -- it was before, and every block is found where it was.
  pub rebuild_package_index_lem :
      (s : ChainStore) (h : ℕ) (hash : Text)
      → IsStore x s
      → ((rebuild_package_index x s).packages ≡ index_blocks (blocks_up 0 (tip_height s + 1) s) [])
        × (get_block_by_height h (rebuild_package_index x s) ≡ get_block_by_height h s)
        × (get_block_by_hash hash (rebuild_package_index x s) ≡ get_block_by_hash hash s)
  unfolding rebuild_package_index get_block_by_hash
  rebuild_package_index_lem s h hash valid =
      let replayed =
        replay_lem (tip_height s + 1) 0 s (record s { packages = [] }) valid
          (λ k. refl, λ k. refl) in
      (replayed.0, sym (get_block_by_height-IsSameChain s _ h replayed.1), sym (replayed.1.1 hash))

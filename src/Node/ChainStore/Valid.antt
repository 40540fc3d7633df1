-- ===== src/Node/ChainStore/Valid.antt =====
-- crates/node/src/chain_store.rs: the index by height agrees with the blocks.
use chain_registry_core.Prelude.{
  ℕ, some, List, [], ◌∷◌, Text, text_eq, text_beq_iff, text_leb, nat_eq, leb, ◌==◌, if◌then◌else◌,
  All, ◌≡◌, ◌⊎◌, inl, inr, refl, sym, ◌∙◌, arith, Bool-cases, Option-cases,
}
use chain_registry_core.Prelude.Map.{Map, lookup, IsMap, lookup-All}
use chain_registry_core.Prelude.Ordered.{
  put, Ascending, lookup-put, put-All, put-Ascending, put_all-IsMap,
}
use chain_registry_core.Common.Block.{Block, BlockHeader}
use chain_registry_core.Common.External.{External, block_hash}
use chain_registry_core.Common.Collision.{Collision, same_or_Collision}
use chain_registry_core.Node.ChainStore.{
  ChainStore, get_block_by_hash, get_block_by_height, insert_block, index_batch,
}

-- What holds of each element, or else a fact.
All-or :
    {A : Type 0} {C : Type 0} (P Q : A → Type 0)
    → ((a : A) → P a → Q a ⊎ C)
    → (xs : List A) → All P xs
    → All Q xs ⊎ C
All-or P Q f [] h = inl tt
All-or P Q f (a ∷ xs) h = elim (f a h.0) [
  | inr c ↦ inr c
  | inl q ↦ elim (All-or P Q f xs h.1) [ inl qs ↦ inl (q, qs) | inr c ↦ inr c ]
]

module _ (x : External) where
  open x use {header_json}

  -- The block with the hash is stored, and is one of this height and hash.
  abbrev pub IsStored : Map Text Block → ℕ × Text → Type 0
  IsStored blocks t =
      (b : Block) × (lookup t.1 blocks ≡ some b) × (b.header.height ≡ t.0) × (block_hash x b ≡ t.1)

  abbrev pub IsStore : ChainStore → Type 0
  IsStore s = Ascending s.by_height × IsMap s.packages × All (IsStored s.by_hash) s.by_height

  module _ (json : (h k : BlockHeader) → header_json h ≡ header_json k → h.height ≡ k.height) where
    -- Two blocks with one hash have one height.
    pub block_hash-height :
        (a b : Block)
        → block_hash x a ≡ block_hash x b
        → (a.header.height ≡ b.header.height) ⊎ Collision x
    unfolding block_hash
    block_hash-height a b h = elim (same_or_Collision x _ _ h) [
      | inl same ↦ inl (json a.header b.header same)
      | inr c ↦ inr c
    ]

    lookup-put_self :
        (hash : Text) (b : Block) (m : Map Text Block)
        → lookup hash (put text_leb hash b m) ≡ some b
    lookup-put_self hash b m =
        ground (arith, lookup-put text_leb hash hash b m, text_beq_iff hash hash)

    IsStored-put :
        (b : Block) (blocks : Map Text Block) (t : ℕ × Text)
        → IsStored blocks t
        → IsStored (put text_leb (block_hash x b) b blocks) t ⊎ Collision x
    IsStored-put b blocks t h =
        let found = lookup-put text_leb (block_hash x b) t.1 b blocks in
        elim (Bool-cases (t.1 == block_hash x b)) [
          | inr miss ↦ inl (h.0, found ∙ rw miss h.1, h.2, h.3)
          | inl hit ↦
              let hash : t.1 ≡ block_hash x b = (text_beq_iff t.1 (block_hash x b)).0 hit in
              elim (block_hash-height b h.0 (sym hash ∙ sym h.3)) [
                | inr c ↦ inr c
                | inl height ↦ inl (b, found ∙ rw hit refl, height ∙ h.2, sym hash)
              ]
        ]

    -- Where headers with the same JSON have the same height, a block's insertion keeps the store well
    -- formed, or two texts have one hash.
    pub insert_block-IsStore :
        (b : Block) (s : ChainStore) → IsStore s → IsStore (insert_block x b s) ⊎ Collision x
    unfolding insert_block
    insert_block-IsStore b s h =
        let blocks = put text_leb (block_hash x b) b s.by_hash in
        let here = lookup-put_self (block_hash x b) b s.by_hash in
        elim (All-or (IsStored s.by_hash) (IsStored blocks) (IsStored-put b s.by_hash) s.by_height
          h.2) [
            | inr c ↦ inr c
            | inl old ↦ inl (
              put-Ascending b.header.height (block_hash x b) s.by_height h.0,
              put_all-IsMap text_leb (index_batch (block_hash x b) s.packages b.transactions)
                  s.packages h.1,
              put-All (IsStored blocks) b.header.height (block_hash x b) s.by_height
                  (b, here, refl, refl) old,
            )
          ]

    -- After a block's insertion, its height has the block and every other height what it had, or two
    -- texts have one hash.
    pub get_block_by_height-insert_block :
        (h : ℕ) (b : Block) (s : ChainStore)
        → IsStore s
        → (get_block_by_height h (insert_block x b s)
            ≡ (if h == b.header.height then some b else get_block_by_height h s))
          ⊎ Collision x
    unfolding insert_block get_block_by_height get_block_by_hash
    get_block_by_height-insert_block h b s valid =
        let hash = block_hash x b in
        let found = lookup-put leb b.header.height h hash s.by_height in
        elim (Bool-cases (h == b.header.height)) [
          | inl hit ↦
              let at : lookup h (put leb b.header.height hash s.by_height) ≡ some hash =
                found ∙ rw hit refl in
              inl (rw (at, hit) (lookup-put_self hash b s.by_hash))
          | inr miss ↦
              let at : lookup h (put leb b.header.height hash s.by_height) ≡ lookup h s.by_height =
                found ∙ rw miss refl in
              elim (Option-cases (lookup h s.by_height)) [
                | inl none_h ↦ inl (rw (at, none_h, miss) refl)
                | inr (old, some_h) ↦
                    let stored = lookup-All (IsStored s.by_hash) h s.by_height valid.2 some_h in
                    let after = lookup-put text_leb hash old b s.by_hash in
                    elim (Bool-cases (old == hash)) [
                      | inr other ↦ inl (rw (at, some_h, miss) (after ∙ rw other refl))
                      | inl same ↦
                          let hash_eq : old ≡ hash = (text_beq_iff old hash).0 same in
                          elim (block_hash-height b stored.0 (sym hash_eq ∙ sym stored.3)) [
                            | inr c ↦ inr c
                            | inl height ↦ inl (ground (arith, miss, height, stored.2))
                          ]
                    ]
              ]
        ]

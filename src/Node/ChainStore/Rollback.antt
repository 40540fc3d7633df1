-- ===== src/Node/ChainStore/Rollback.antt =====
-- crates/node/src/chain_store.rs: what a rollback leaves.
use chain_registry_core.Prelude.{
  ℕ, zero, suc, ◌+◌, ◌-◌, ◌≤◌, Option, none, some, [], ◌∷◌, Text, text_eq, nat_eq, leb,
  if◌then◌else◌, ◌&&◌, not, ◌≡◌, refl, ◌∙◌, ap, arith, Bool-cases, inl, inr, All,
}
use chain_registry_core.Prelude.Map.{Map, lookup, remove, lookup-remove, remove-All}
use chain_registry_core.Prelude.Ordered.{
  last_key, Ascending, lookup-above, lookup-last_key, remove-Ascending,
}
use chain_registry_core.Common.External.{External}
use chain_registry_core.Node.ChainStore.{
  ChainStore, get_block_by_height, get_block_by_hash, block_at, tip_height, delete_above,
  rollback_to_height,
}
use chain_registry_core.Node.ChainStore.Valid.{IsStore, IsStored}

lookup-delete_above :
    (h height count : ℕ) (m : Map ℕ Text)
    → lookup h (delete_above height count m)
      ≡ (if not (leb h height) && leb h (height + count) then none else lookup h m)
unfolding delete_above
lookup-delete_above h height zero m = ground arith
lookup-delete_above h height (suc count) m = ground (
  arith,
  lookup-delete_above h height count (remove (height + suc count) m),
  lookup-remove (height + suc count) h m,
)

delete_above-Ascending :
    (height count : ℕ) (m : Map ℕ Text) → Ascending m → Ascending (delete_above height count m)
unfolding delete_above
delete_above-Ascending height zero m h = h
delete_above-Ascending height (suc count) m h =
    delete_above-Ascending height count (remove (height + suc count) m)
      (remove-Ascending (height + suc count) m h)

delete_above-All :
    (P : ℕ × Text → Type 0) (height count : ℕ) (m : Map ℕ Text)
    → All P m
    → All P (delete_above height count m)
unfolding delete_above
delete_above-All P height zero m h = h
delete_above-All P height (suc count) m h =
    delete_above-All P height count (remove (height + suc count) m)
      (remove-All P (height + suc count) m h)

-- Every key above the height is deleted, and no other.
lookup-rollback :
    (h height : ℕ) (s : ChainStore)
    → Ascending s.by_height
    → lookup h ((rollback_to_height height s).1).by_height
      ≡ (if leb h height then lookup h s.by_height else none)
unfolding rollback_to_height tip_height
lookup-rollback h height s up = elim (Bool-cases (leb (last_key s.by_height) height)) [
  | inl low ↦ rw low (ground (arith, low, lookup-above h s.by_height up))
  | inr high ↦ rw high (
      ground (
        arith,
        high,
        lookup-above h s.by_height up,
        lookup-delete_above h height (last_key s.by_height - height) s.by_height,
      ))
]

last_key-le :
    (height : ℕ) (m : Map ℕ Text) (o : Option Text)
    → Ascending m
    → lookup (last_key m) m ≡ (if leb (last_key m) height then o else none)
    → last_key m ≤ height
last_key-le height [] o up h = omega arith
last_key-le height ((k, v) ∷ m) o up h = elim (Bool-cases (leb (last_key ((k, v) ∷ m)) height)) [
  | inl low ↦ ground (arith, low)
  | inr high ↦ ground (arith, high, h, lookup-last_key k v m up)
]

by_hash-rollback :
    (height : ℕ) (s : ChainStore) → ((rollback_to_height height s).1).by_hash ≡ s.by_hash
unfolding rollback_to_height
by_hash-rollback height s = elim (Bool-cases (leb (tip_height s) height)) [
  | inl low ↦ rw low refl
  | inr high ↦ rw high refl
]

pub block_at-by_hash :
    (o : Option Text) (s t : ChainStore) → s.by_hash ≡ t.by_hash → block_at o s ≡ block_at o t
unfolding get_block_by_hash
block_at-by_hash none s t h = refl
block_at-by_hash (some hash) s t h = ap (lookup hash) h

module _ (x : External) where
  -- A rollback keeps the store well formed.
  pub rollback_to_height-IsStore :
      (height : ℕ) (s : ChainStore) → IsStore x s → IsStore x (rollback_to_height height s).1
  unfolding rollback_to_height
  rollback_to_height-IsStore height s h = elim (Bool-cases (leb (tip_height s) height)) [
    | inl low ↦ rw low h
    | inr high ↦ rw high (
      delete_above-Ascending height (tip_height s - height) s.by_height h.0,
      h.1,
      delete_above-All (IsStored x s.by_hash) height (tip_height s - height) s.by_height h.2,
    )
  ]

  -- In a well-formed store a rollback leaves the blocks up to the height where they are and none
  -- above, the tip is not above it, and every block can still be read by its hash.
  pub rollback_to_height_lem :
      (h height : ℕ) (hash : Text) (s : ChainStore)
      → IsStore x s
      → (get_block_by_height h (rollback_to_height height s).1
          ≡ (if leb h height then get_block_by_height h s else none))
        × (get_block_by_hash hash (rollback_to_height height s).1 ≡ get_block_by_hash hash s)
        × (tip_height (rollback_to_height height s).1 ≤ height)
  unfolding get_block_by_height get_block_by_hash tip_height
  rollback_to_height_lem h height hash s valid =
      let after = (rollback_to_height height s).1 in
      let blocks = by_hash-rollback height s in
      let found = lookup-rollback h height s valid.0 in
      let up = (rollback_to_height-IsStore height s valid).0 in
      let last = last_key after.by_height in
      (
        elim (Bool-cases (leb h height)) [
          | inl low ↦
              let at : lookup h after.by_height ≡ lookup h s.by_height = found ∙ rw low refl in
              rw (at, low) (block_at-by_hash (lookup h s.by_height) after s blocks)
          | inr high ↦
              let at : lookup h after.by_height ≡ none = found ∙ rw high refl in rw (at, high) refl
        ],
        ap (lookup hash) blocks,
        last_key-le height after.by_height (lookup last s.by_height) up
            (lookup-rollback last height s valid.0),
      )

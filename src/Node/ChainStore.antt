-- ===== src/Node/ChainStore.antt =====
-- crates/node/src/chain_store.rs: the blocks and the index of packages. A column family is a map with
-- its keys in order; what is stored under a key is the value itself and not its JSON, so a read that
-- fails to decode, like a failure of the disk, is left out.
mod Tests
pub mod Query
pub mod Reorg
pub mod Rebuild
pub mod Rollback
pub mod Valid
pub mod Index
use chain_registry_core.Prelude.{
  ℕ, zero, suc, ◌+◌, ◌-◌, Bool, true, false, Option, none, some, List, [], ◌∷◌, ◌++◌, map, Text,
  txt, text_eq, text_leb, nat_eq, starts_with, leb, ◌==◌, if◌then◌else◌, filterb,
}
use chain_registry_core.Prelude.Map.{Map, lookup, remove}
use chain_registry_core.Prelude.Ordered.{put, put_all, last_key}
use chain_registry_core.Common.Package.{ChainRecord, canonical, revoked}
use chain_registry_core.Common.Block.{
  Block, BlockHeader, Transaction, publish, revoke, slash, validator_join, validator_leave,
  rotate_publisher_key,
}
use chain_registry_core.Common.External.{External, block_hash}

pub record ChainStore : Type 0 where
  pub by_hash : Map Text Block
  pub by_height : Map ℕ Text
  pub packages : Map Text ChainRecord

unfoldable pub get_block_by_hash : Text → ChainStore → Option Block
get_block_by_hash hash s = lookup hash s.by_hash

abbrev pub block_at : Option Text → ChainStore → Option Block
block_at none s = none
block_at (some hash) s = get_block_by_hash hash s

unfoldable pub get_block_by_height : ℕ → ChainStore → Option Block
get_block_by_height height s = block_at (lookup height s.by_height) s

unfoldable pub tip_height : ChainStore → ℕ
tip_height s = last_key s.by_height

unfoldable pub get_package : Text → ChainStore → Option ChainRecord
get_package name s = lookup name s.packages

abbrev pub revoke_record : Text → ChainRecord → ChainRecord
revoke_record reason r = record r { status = revoked reason }

abbrev pub rotate_record : Text → Text → ChainRecord → ChainRecord
rotate_record old new r =
    if r.publisher_pubkey == old then record r { publisher_pubkey = new } else r

-- The entries of the index with a prefix whose key is the old one, rotated.
unfoldable pub rotated : Text → Text → Text → Map Text ChainRecord → Map Text ChainRecord
rotated prefix old new [] = []
rotated prefix old new ((name, r) ∷ m) =
    let rest = rotated prefix old new m in
    if starts_with name prefix
    then (if r.publisher_pubkey == old then (name, rotate_record old new r) ∷ rest else rest)
    else rest

abbrev pub revoked_entry : Text → Text → Option ChainRecord → Map Text ChainRecord
revoked_entry name reason none = []
revoked_entry name reason (some r) = (name, revoke_record reason r) ∷ []

-- What a transaction adds to the batch. The index that it reads is the one before the batch.
unfoldable pub index_writes : Text → Map Text ChainRecord → Transaction → Map Text ChainRecord
unfolding rotated
index_writes hash old (publish r) = (canonical r.id, record r { block_hash = hash }) ∷ []
index_writes hash old (revoke name reason by evidence) = revoked_entry name reason (lookup name old)
index_writes hash old (rotate_publisher_key prefix old_key new_key s t time nonce) =
    rotated prefix old_key new_key old
index_writes hash old (slash v amount reason) = []
index_writes hash old (validator_join v key stake) = []
index_writes hash old (validator_leave v) = []

unfoldable pub index_batch : Text → Map Text ChainRecord → List Transaction → Map Text ChainRecord
unfolding index_writes
index_batch hash old [] = []
index_batch hash old (tx ∷ txs) = index_writes hash old tx ++ index_batch hash old txs

abbrev pub with_block : Option Block → List Block → List Block
with_block none bs = bs
with_block (some b) bs = b ∷ bs

-- The blocks at the heights from `h` on, `count` of them.
unfoldable pub blocks_up : ℕ → ℕ → ChainStore → List Block
blocks_up h zero s = []
blocks_up h (suc count) s = with_block (get_block_by_height h s) (blocks_up (h + 1) count s)

pub record BlockInsertOutcome : Type 0 where
  pub hash : Text
  pub replaced_hash : Option Text

module _ (x : External) where
  unfoldable pub insert_block : Block → ChainStore → ChainStore
  unfolding index_batch
  insert_block b s = record {
    by_hash = put text_leb (block_hash x b) b s.by_hash;
    by_height = put leb b.header.height (block_hash x b) s.by_height;
    packages = put_all text_leb (index_batch (block_hash x b) s.packages b.transactions) s.packages;
  }

  abbrev pub replaced : Text → Option Block → Option Text
  replaced new none = none
  replaced new (some existing) =
      if block_hash x existing == new then none else some (block_hash x existing)

  unfoldable pub insert_block_with_outcome : Block → ChainStore → BlockInsertOutcome × ChainStore
  unfolding insert_block get_block_by_height
  insert_block_with_outcome b s = (
    record {
      hash = block_hash x b;
      replaced_hash = replaced (block_hash x b) (get_block_by_height b.header.height s);
    },
    insert_block b s,
  )

  abbrev pub reinsert : Option Block → ChainStore → ChainStore
  reinsert none s = s
  reinsert (some b) s = insert_block b s

  -- The heights from `h` on, `count` of them.
  unfoldable pub replay : ℕ → ℕ → ChainStore → ChainStore
  replay h zero s = s
  replay h (suc count) s = replay (h + 1) count (reinsert (get_block_by_height h s) s)

  unfoldable pub rebuild_package_index : ChainStore → ChainStore
  unfolding replay
  rebuild_package_index s = replay 0 (tip_height s + 1) (record s { packages = [] })

abbrev pub with_hash : Option Text → List Text → List Text
with_hash none hashes = hashes
with_hash (some hash) hashes = hash ∷ hashes

-- The hashes at the heights above `height`, `count` of them, the highest first.
unfoldable pub abandoned : ℕ → ℕ → Map ℕ Text → List Text
abandoned height zero m = []
abandoned height (suc count) m =
    with_hash (lookup (height + suc count) m) (abandoned height count m)

-- The deletions at these heights.
unfoldable pub delete_above : ℕ → ℕ → Map ℕ Text → Map ℕ Text
delete_above height zero m = m
delete_above height (suc count) m = delete_above height count (remove (height + suc count) m)

unfoldable pub rollback_to_height : ℕ → ChainStore → List Text × ChainStore
unfolding abandoned delete_above tip_height
rollback_to_height height s =
    let count = tip_height s - height in
    if leb (tip_height s) height then ([], s) else (
      abandoned height count s.by_height,
      record s { by_height = delete_above height count s.by_height },
    )

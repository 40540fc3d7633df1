-- ===== src/Node/Sync.antt =====
-- crates/node/src/sync.rs: catching up with the peers. What the peers answer is a function of the
-- height; the messages of the log are left out, but for the slices in one of them.
pub mod Quorum
mod Tests
pub mod Adopted
pub mod Voters
use chain_registry_core.Prelude.{
  ℕ, zero, suc, ◌+◌, ◌-◌, Bool, true, false, not, ◌&&◌, ◌||◌, Option, none, some, List, [], ◌∷◌,
  Text, ltb, leb, nat_beq, ◌==◌, if◌then◌else◌, text_eq, nat_eq, length, take, cuts_at_12,
}
use chain_registry_core.Common.Block.{Block}
use chain_registry_core.Common.External.{External, block_hash}
use chain_registry_core.Consensus.ValidatorSet.{Validator}
use chain_registry_core.Node.History.{ValidatorSetSnapshot, set_at}
use chain_registry_core.Node.ChainStore.{
  blocks_up, ChainStore, get_block_by_height, tip_height, insert_block, rollback_to_height,
  rebuild_package_index,
}
use chain_registry_core.Node.PublisherIndex.{PublisherIndex, apply_block, rebuild_from_chain}
use chain_registry_core.Node.ChainStore.Query.{tip_hash}
use chain_registry_core.Node.Signatures.{is_ok, verify_block_signatures}

-- What the node keeps: a reorg is its depth, the hashes it abandoned and the new tip.
pub record SyncState : Type 0 where
  pub chain : ChainStore
  pub publishers : PublisherIndex
  pub reorgs : List (ℕ × List Text × Text)

pub data Search : Type 0 where
  aborted missing : Search
  ancestor : ℕ → Text → Search

abbrev pub max_reorg_depth : ℕ
max_reorg_depth = 64

abbrev pub max_reorg_events : ℕ
max_reorg_events = 100

-- `set_at`, or the set that is in force now.
abbrev effective_set : List ValidatorSetSnapshot → List Validator → ℕ → List Validator
effective_set history current h = elim (set_at history h) [ none ↦ current | some vs ↦ vs ]

unfoldable pub record_reorg : ℕ → List Text → Text → SyncState → SyncState
record_reorg depth abandoned tip s = record s {
  reorgs = take max_reorg_events ((depth, abandoned, tip) ∷ s.reorgs);
}

pub data SyncEnd : Type 0 where
  stopped panicked : SyncState → SyncEnd

abbrev pub grow : Block → Option (List Block × Text) → Option (List Block × Text)
grow b none = none
grow b (some (bs, tip)) = some (b ∷ bs, tip)

module _ (x : External) where
  abbrev pub compare_at : ℕ → Block → Option Block → Search → Search
  compare_at k ours none later = aborted
  compare_at k ours (some theirs) later =
      if block_hash x ours == block_hash x theirs then ancestor k (block_hash x ours) else later

  -- The heights from `floor` on, `count` of them, the highest first. The lock is taken anew for each
  -- height `k`, at which the chain is `held k`.
  unfoldable pub find_ancestor : (ℕ → Option Block) → (ℕ → ChainStore) → ℕ → ℕ → Search
  find_ancestor their held floor zero = missing
  find_ancestor their held floor (suc count) =
      let later = find_ancestor their held floor count in
      elim (get_block_by_height (floor + count) (held (floor + count))) [
        | none ↦ later
        | some ours ↦ compare_at (floor + count) ours (their (floor + count)) later
      ]

  -- Whether a block may follow the hash at the height.
  unfoldable pub accepts : (ℕ → List Validator) → ℕ → Text → Block → Bool
  unfolding verify_block_signatures
  accepts sets h link b =
      (b.header.height == h)
      && ((b.header.prev_hash == link)
          && is_ok (verify_block_signatures x b (sets b.header.height)))

  -- The peers' blocks from the height `h` on, `count` of them, with the hash of the last; none where
  -- one is missing or refused.
  unfoldable pub fetch_branch :
      (ℕ → List Validator) → (ℕ → Option Block) → ℕ → ℕ → Text → Option (List Block × Text)
  unfolding accepts
  fetch_branch sets fetch h zero link = some ([], link)
  fetch_branch sets fetch h (suc count) link = elim (fetch h) [
    | none ↦ none
    | some b ↦
        let rest = fetch_branch sets fetch (h + 1) count (block_hash x b) in
        if accepts sets h link b then grow b rest else none
  ]

  abbrev pub insert_blocks : List Block → ChainStore → ChainStore
  insert_blocks [] s = s
  insert_blocks (b ∷ bs) s = insert_blocks bs (insert_block x b s)

-- What is done at the time `now`.
module _ (x : External) (now : ℕ) where
  -- The new chain, with the index of the publishers that its blocks give.
  abbrev pub reindexed : SyncState → ChainStore → SyncState
  reindexed s chain = record s {
    chain = chain;
    publishers = rebuild_from_chain now (blocks_up 0 (tip_height chain + 1) chain) s.publishers;
  }

  -- The end of `attempt_reorg_recovery`: true where the branch is adopted.
  abbrev pub adopt : ℕ → ℕ → Option (List Block × Text) → SyncState → Bool × SyncState
  adopt local_tip fork none s = (false, s)
  adopt local_tip fork (some (branch, tip)) s =
      if leb (fork + length branch) local_tip
      then (false, s)
      else let back = rollback_to_height fork s.chain in
        (
          true,
          record_reorg (local_tip - fork) back.0 tip
              (reindexed s (rebuild_package_index x (insert_blocks x branch back.1))),
        )

  abbrev pub recover :
      (ℕ → List Validator) → (ℕ → Option Block) → ℕ → ℕ → Search → SyncState → Bool × SyncState
  recover sets fetch local_tip peer_height aborted s = (false, s)
  recover sets fetch local_tip peer_height missing s = (false, s)
  recover sets fetch local_tip peer_height (ancestor fork hash) s =
      adopt local_tip fork (fetch_branch x sets fetch (fork + 1) (peer_height - fork) hash) s

  -- `their` is what the peers answer in the search, `fetch` what they answer afterwards, `held` the
  -- chain at each step of the search, and `s` the state under the lock of the last step.
  unfoldable pub attempt_reorg_recovery :
      (ℕ → List Validator)
      → (ℕ → Option Block)
      → (ℕ → Option Block)
      → (ℕ → ChainStore)
      → ℕ
      → ℕ
      → SyncState
      → Bool × SyncState
  unfolding find_ancestor fetch_branch record_reorg
  attempt_reorg_recovery sets their fetch held local_tip peer_height s =
      let floor = local_tip - max_reorg_depth in
      recover sets fetch local_tip peer_height
        (find_ancestor x their held floor (local_tip + 1 - floor)) s

  -- The blocks from the height `h` on, `count` of them, after the hash `prev`. No lock is held while
  -- a block is fetched and checked: `others h` is what the other tasks do to the state until the
  -- lock is taken for the block at `h`. The slices are those of the message about a block that does
  -- not follow the hash.
  unfoldable pub sync_from :
      (ℕ → SyncState → SyncState)
      → (ℕ → List Validator)
      → (ℕ → Option Block)
      → (ℕ → Option Block)
      → (ℕ → Option Block)
      → (ℕ → ChainStore)
      → ℕ
      → ℕ
      → ℕ
      → Text
      → SyncState
      → SyncEnd
  unfolding attempt_reorg_recovery verify_block_signatures
  sync_from others sets fetch their branch held peer_height h zero prev s = stopped s
  sync_from others sets fetch their branch held peer_height h (suc count) prev s = elim (fetch h) [
    | none ↦ stopped s
    | some b ↦
        let now_held = others h s in
        let rest =
          sync_from others sets fetch their branch held peer_height (h + 1) count (block_hash x b)
            (record now_held {
              chain = insert_block x b now_held.chain;
              publishers = apply_block now b now_held.publishers;
            }) in
        if not (b.header.prev_hash == prev)
        then (if cuts_at_12 prev && cuts_at_12 b.header.prev_hash
            then stopped
                (attempt_reorg_recovery sets their branch held (h - 1) peer_height now_held).1
            else panicked s)
        else if accepts x sets h prev b
        then rest
        else stopped s
  ]

  -- The set of validators in force now and the history are read at each height. `before` is what
  -- the other tasks do between the reading of the tip's height and that of its hash.
  unfoldable pub sync_once :
      (SyncState → SyncState)
      → (ℕ → SyncState → SyncState)
      → (ℕ → List ValidatorSetSnapshot)
      → (ℕ → List Validator)
      → (ℕ → Option Block)
      → (ℕ → Option Block)
      → (ℕ → Option Block)
      → (ℕ → ChainStore)
      → ℕ
      → SyncState
      → SyncEnd
  unfolding sync_from
  sync_once before others history current fetch their branch held peer_height s =
      if leb peer_height (tip_height s.chain)
      then stopped s
      else let later = before s in
        sync_from others (λ h. effective_set (history h) (current h) h) fetch their branch held
          peer_height (tip_height s.chain + 1) (peer_height - tip_height s.chain)
          (tip_hash x later.chain) later

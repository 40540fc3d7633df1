-- ===== src/Consensus/Inclusion.antt =====
-- crates/consensus/src/forced_inclusion.rs: the transactions that a proposer must include, and the
-- evidence against one that leaves them out. The wall-clock time of a submission, which is only for
-- metrics, is left out; the delay, which the environment sets, is a parameter.
pub mod Censorship
mod Tests
use chain_registry_core.Prelude.{
  ℕ, ◌-◌, Bool, not, Option, none, some, List, [], ◌∷◌, map, Text, text_eq, leb, nat_beq,
  if◌then◌else◌, length, filterb,
}
use chain_registry_core.Prelude.Map.{Map, lookup, insert, remove, values}
use chain_registry_core.Prelude.Keys.{holds, remove_each}

pub record PendingTransaction : Type 0 where
  pub tx_hash : Text
  pub submitted_at_height : ℕ

pub record ForcedInclusionTracker : Type 0 where
  pub pending : Map Text PendingTransaction

pub record CensorshipEvidence : Type 0 where
  pub proposer_id : Text
  pub block_height : ℕ
  pub omitted_tx_hashes : List Text

unfoldable pub new_tracker : ForcedInclusionTracker
new_tracker = record { pending = [] }

-- A transaction that is pending keeps its height.
unfoldable pub submit : Text → ℕ → ForcedInclusionTracker → ForcedInclusionTracker
submit tx_hash current_height t = elim (lookup tx_hash t.pending) [
  | some _ ↦ t
  | none ↦ record {
    pending =
        insert tx_hash (record { tx_hash = tx_hash; submitted_at_height = current_height })
          t.pending;
  }
]

unfoldable pub mark_included : List Text → ForcedInclusionTracker → ForcedInclusionTracker
mark_included tx_hashes t = record { pending = remove_each tx_hashes t.pending }

unfoldable pub is_forced : ℕ → ℕ → PendingTransaction → Bool
is_forced delay current_height tx = leb delay (current_height - tx.submitted_at_height)

unfoldable pub forced_transactions : ℕ → ℕ → ForcedInclusionTracker → List PendingTransaction
forced_transactions delay current_height t =
    filterb (is_forced delay current_height) (values t.pending)

unfoldable pub omitted_hashes : List Text → List PendingTransaction → List Text
omitted_hashes included forced =
    map (λ (tx : PendingTransaction). tx.tx_hash)
      (filterb (λ (tx : PendingTransaction). not (holds tx.tx_hash included)) forced)

abbrev pub evidence_of : Text → ℕ → List Text → Option CensorshipEvidence
evidence_of proposer_id block_height [] = none
evidence_of proposer_id block_height (h ∷ hs) =
    some (record {
      proposer_id = proposer_id;
      block_height = block_height;
      omitted_tx_hashes = h ∷ hs;
    })

unfoldable pub check_block :
    ℕ → Text → ℕ → List Text → ForcedInclusionTracker → Option CensorshipEvidence
unfolding forced_transactions omitted_hashes
check_block delay proposer_id block_height included t =
    let forced = forced_transactions delay block_height t in
    if nat_beq (length forced) 0
    then none
    else evidence_of proposer_id block_height (omitted_hashes included forced)

unfoldable pub pending_count : ForcedInclusionTracker → ℕ
pending_count t = length t.pending

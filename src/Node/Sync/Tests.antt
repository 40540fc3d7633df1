-- ===== src/Node/Sync/Tests.antt =====
-- A signed block, a longer fork, and the theorems on the synchronisation at them.
use chain_registry_core.Prelude.{
  ℕ, zero, suc, ◌+◌, ◌-◌, ◌≤◌, ◌<◌, some, Option, List, [], ◌∷◌, ◌++◌, Text, txt, text_eq, nat_eq,
  length, All, ◌≡◌, refl, arith, to_ascii_lowercase,
}
use chain_registry_core.Common.Package.{
  canonical, ChainRecord, ValidatorSignature, approve, default_risk, is_consensus_grade_vote,
  scanner_profile_input,
}
use chain_registry_core.Common.Block.{Block, publish}
use chain_registry_core.Common.External.{block_hash, scanner_profile_digest}
use chain_registry_core.Common.Sample.Encoding.{encoded, fixed, header_fields}
use chain_registry_core.Common.Sample.Chain.{bundles, package_named, header_at, block_of}
use chain_registry_core.Consensus.ValidatorSet.{Validator}
use chain_registry_core.Node.ChainStore.{get_block_by_height, get_block_by_hash}
use chain_registry_core.Node.PublisherIndex.{new_index}
use chain_registry_core.Node.Signatures.{known_keys, vote_text, verify_block_signatures}
use chain_registry_core.Node.Sync.{SyncState, accepts, attempt_reorg_recovery}
use chain_registry_core.Node.Sync.Quorum.{IsApprovedTx, verify_block_signatures_sound}
use chain_registry_core.Node.Sync.Adopted.{
  adopted_state, IsShared, IsBranch, attempt_reorg_recovery_lem,
}

abbrev validators : List Validator
validators =
    record {
      id = txt "v1";
      alias = [];
      pubkey = txt "ab";
      eth_address = [];
      stake = 1;
      reputation = 1;
      status = txt "online";
    }
    ∷ []

abbrev unsigned : ValidatorSignature
unsigned = record {
  validator_id = txt "v1";
  validator_pubkey = txt "ab";
  signature = [];
  vote = approve;
  signed_at = 0;
  ml_model_version = txt "v1.0";
  analysis_bundles = bundles;
  evidence_digest = txt "d";
  deterministic_risk = default_risk;
}

abbrev pad : ChainRecord
pad = record (package_named (txt "pad")) {
  validator_signatures =
      record unsigned {
        signature = txt "ab" ++ vote_text encoded (package_named (txt "pad")) unsigned;
      }
      ∷ [];
}

abbrev signed_block : Block
signed_block = block_of (header_at 1 (txt "0") [] []) (publish pad ∷ []) []

verify_block_signatures_sound_example :
    All (IsApprovedTx encoded (known_keys validators) 1) signed_block.transactions
unfolding verify_block_signatures to_ascii_lowercase is_consensus_grade_vote canonical
    scanner_profile_digest scanner_profile_input
verify_block_signatures_sound_example =
    verify_block_signatures_sound encoded signed_block validators (omega arith) refl

abbrev root_block : Block
root_block = block_of (header_at 0 [] [] []) [] []

abbrev root_hash : Text
root_hash = fixed (header_fields root_block.header)

abbrev ours : Block
ours = block_of (header_at 1 root_hash (txt "ours") []) [] []

abbrev theirs : Block
theirs = block_of (header_at 1 root_hash (txt "theirs") []) [] []

abbrev next : Block
next = block_of (header_at 2 (fixed (header_fields theirs.header)) [] []) [] []

abbrev state : SyncState
state = record {
  chain = record {
    by_hash = (root_hash, root_block) ∷ (fixed (header_fields ours.header), ours) ∷ [];
    by_height = (0, root_hash) ∷ (1, fixed (header_fields ours.header)) ∷ [];
    packages = [];
  };
  publishers = new_index;
  reorgs = [];
}

abbrev peers : ℕ → Option Block
peers zero = some root_block
peers (suc zero) = some theirs
peers (suc (suc n)) = some next

abbrev sets : ℕ → List Validator
sets h = validators

attempt_reorg_recovery_lem_example :
    (fork : ℕ) × (hash : Text) × (branch : List Block) × (tip : Text) × (1 ≤ fork + 64)
    × (fork ≤ 1)
    × IsShared encoded peers state.chain fork hash
    × IsBranch encoded sets (fork + 1) hash branch tip
    × (1 < fork + length branch)
    × (length branch ≡ 2 - fork)
    × ((attempt_reorg_recovery encoded 7 sets peers peers (λ h. state.chain) 1 2 state).1
        ≡ adopted_state encoded 7 state 1 fork branch tip)
unfolding attempt_reorg_recovery get_block_by_height get_block_by_hash accepts block_hash
attempt_reorg_recovery_lem_example =
    attempt_reorg_recovery_lem encoded 7 sets peers peers (λ h. state.chain) 1 2 state
      (attempt_reorg_recovery encoded 7 sets peers peers (λ h. state.chain) 1 2 state).1 refl

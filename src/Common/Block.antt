-- ===== src/Common/Block.antt =====
-- crates/common/src/block.rs: blocks, their signatures and the transactions that they carry.
use chain_registry_core.Prelude.{ℕ, List, Option, Text}
use chain_registry_core.Common.Package.{ChainRecord}

pub record BlockHeader : Type 0 where
  pub height : ℕ
  pub prev_hash : Text
  pub merkle_root : Text
  pub proposer_id : Text
  pub timestamp : ℕ
  pub validator_set_hash : Text
  pub vrf_output : Option Text
  pub vrf_proof : Option Text

pub record BlockSignature : Type 0 where
  pub validator_id : Text
  pub pubkey : Text
  pub signature : Text

pub data Transaction : Type 0 where
  publish : ChainRecord → Transaction
  -- package canonical, reason, revoked by, evidence hash
  revoke : Text → Text → Text → Text → Transaction
  -- validator, amount, reason
  slash : Text → ℕ → Text → Transaction
  -- validator, pubkey, stake
  validator_join : Text → Text → ℕ → Transaction
  validator_leave : Text → Transaction
  -- canonical prefix, old and new key, the two signatures, timestamp, nonce
  rotate_publisher_key : Text → Text → Text → Text → Text → ℕ → ℕ → Transaction

pub record Block : Type 0 where
  pub header : BlockHeader
  pub transactions : List Transaction
  pub pbft_signatures : List BlockSignature

-- ===== src/Common/Sample/Chain.antt =====
-- Records, headers, blocks and signatures for tests.
use chain_registry_core.Prelude.{ℕ, false, none, List, [], Text, txt}
use chain_registry_core.Common.Package.{AnalysisBundleRefs, ChainRecord, verified, default_risk}
use chain_registry_core.Common.Block.{BlockHeader, BlockSignature, Block, Transaction}

abbrev pub bundles : AnalysisBundleRefs
bundles = record {
  policy_bundle_id = txt "p";
  feature_schema_id = txt "f";
  expert_bundle_id = txt "e";
  embedding_model_id = txt "m";
  index_epoch = txt "i";
  threshold_profile_id = txt "t";
  llm_prompt_profile_id = txt "l";
  osv_snapshot_epoch = txt "o";
}

abbrev pub package_named : Text → ChainRecord
package_named name = record {
  id = record { ecosystem = txt "npm"; name = name; version = txt "1" };
  content_hash = txt "c";
  ipfs_cid = [];
  publisher_pubkey = txt "key";
  block_hash = [];
  published_at = 0;
  validator_signatures = [];
  status = verified;
  shielded = false;
  key_bundle = none;
  pgp_fingerprint = none;
  findings = [];
  analysis_bundles = bundles;
  evidence_digest = txt "d";
  deterministic_risk = default_risk;
  access_count = 0;
  last_accessed = none;
  threshold = 0;
  publisher_pubkeys = [];
  manifest = none;
}

abbrev pub header_at : ℕ → Text → Text → Text → BlockHeader
header_at height prev root set_hash = record {
  height = height;
  prev_hash = prev;
  merkle_root = root;
  proposer_id = txt "v1";
  timestamp = 0;
  validator_set_hash = set_hash;
  vrf_output = none;
  vrf_proof = none;
}

abbrev pub block_of : BlockHeader → List Transaction → List BlockSignature → Block
block_of header txs sigs = record { header = header; transactions = txs; pbft_signatures = sigs }

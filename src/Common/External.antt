-- ===== src/Common/External.antt =====
-- What the crates take from packages outside the repository: `hex`, `sha2`, `serde_json` and
-- `ed25519_dalek`. A theorem holds for every choice of these functions.
use chain_registry_core.Prelude.{Text, Option, Bool}
use chain_registry_core.Common.Block.{BlockHeader, Transaction, Block}
use chain_registry_core.Common.Package.{AnalysisBundleRefs, scanner_profile_input}

pub record External : Type 0 where
  -- `hex::decode`
  pub hex_decode : Text → Option Text
  -- `VerifyingKey::try_from(bytes).is_ok()`
  pub is_verifying_key : Text → Bool
  -- `Signature::try_from(bytes).is_ok()`
  pub is_signature : Text → Bool
  -- `verifying_key.verify(message, &signature).is_ok()`
  pub ed25519_verify : Text → Text → Text → Bool
  -- SHA-256, as lower-case hex
  pub sha256_hex : Text → Text
  -- `serde_json::to_vec` of a header and of a transaction
  pub header_json : BlockHeader → Text
  pub transaction_json : Transaction → Text

module _ (x : External) where
  open x use {sha256_hex, header_json}

  -- `Block::hash`
  unfoldable pub block_hash : Block → Text
  block_hash b = sha256_hex (header_json b.header)

  unfoldable pub scanner_profile_digest : Text → AnalysisBundleRefs → Text
  scanner_profile_digest scanner_version bundles =
      sha256_hex (scanner_profile_input bundles scanner_version)

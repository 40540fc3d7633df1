-- ===== src/Common/Sample.antt =====
-- Functions that stand for the outside packages in tests: a hash is its text, and a signature is the
-- key followed by the message.
pub mod Encoding
pub mod Chain
use chain_registry_core.Prelude.{some, true, [], ◌++◌, text_beq}
use chain_registry_core.Common.External.{External}

abbrev pub sample : External
sample = record {
  hex_decode = λ t. some t;
  is_verifying_key = λ t. true;
  is_signature = λ t. true;
  ed25519_verify = λ key message sig. text_beq sig (key ++ message);
  sha256_hex = λ t. t;
  header_json = λ h. h.merkle_root;
  transaction_json = λ t. [];
}

-- ===== src/Resolver/LightClient.antt =====
-- crates/resolver/src/light_client.rs: what the light client checks of a node's answer. The request
-- over HTTP is left out.
pub mod Response
pub mod Quorum
pub mod Complete
mod Tests
pub mod Chain
use chain_registry_core.Prelude.{
  ℕ, ◌+◌, ◌*◌, ◌/◌, ◌%◌, ◌^◌, Bool, true, false, not, ◌&&◌, ◌||◌, Option, none, some, List, [], ◌∷◌,
  ◌++◌, map, Text, txt, text_eq, text_leb, nat_eq, ltb, nat_beq, ◌==◌, if◌then◌else◌, length,
  filterb, Result, ok, err, ◌>>=◌, ◌>>◌, trim_start_0x, to_ascii_lowercase,
}
use chain_registry_core.Prelude.Map.{Map, lookup, insert}
use chain_registry_core.Prelude.Keys.{holds}
use chain_registry_core.Prelude.Sort.{sort_by}
use chain_registry_core.Common.Block.{BlockHeader, BlockSignature}
use chain_registry_core.Common.External.{External}
use chain_registry_core.Consensus.ValidatorSet.{Validator}
use chain_registry_core.Resolver.Merkle.{MerkleProof, verify_proof}

pub record Checkpoint : Type 0 where
  pub height : ℕ
  pub hash : Text

pub data LightError : Type 0 where
  set_hash_mismatch empty_set invalid_pubkey_hex invalid_pubkey : LightError
  invalid_signature_hex invalid_signature failed_signature insufficient_signatures : LightError
  header_hash_mismatch height_mismatch chain_break : LightError
  bad_merkle_proof merkle_root_mismatch omitted_terminal terminal_mismatch : LightError
  checkpoint_mismatch : LightError

pub record LightClientResponse : Type 0 where
  pub status : Text
  pub block_hash : Text
  pub block_header : BlockHeader
  pub proof : MerkleProof
  pub header_chain : List (BlockHeader × Text)
  pub pbft_signatures : List BlockSignature
  pub active_validators : List Validator

abbrev pub ensure : Bool → LightError → Result LightError Unit
ensure true e = ok tt
ensure false e = err e

abbrev pub found : {A : Type 0} → Option A → LightError → Result LightError A
found none e = err e
found (some a) e = ok a

-- Each id and a byte 0.
abbrev pub joined : List Text → Text
joined [] = []
joined (id ∷ ids) = id ++ (0 ∷ joined ids)

abbrev pub clean : Text → Text
clean key = to_ascii_lowercase (trim_start_0x key)

-- The last key of an id that stands twice.
unfoldable pub collect_keys : List Validator → Map Text Text → Map Text Text
collect_keys [] m = m
collect_keys (v ∷ vs) m = collect_keys vs (insert v.id (clean v.pubkey) m)

unfoldable pub quorum_for : Bool → ℕ → ℕ
quorum_for allow_small n = if nat_beq n 3 && allow_small then 2 else 2 * n / 3 + 1

abbrev pub commit_message : Text → Text
commit_message hash = txt "creg-pbft-v1:commit:" ++ hash

abbrev pub last : List (BlockHeader × Text) → Option (BlockHeader × Text)
last [] = none
last (t ∷ []) = some t
last (t ∷ u ∷ ts) = last (u ∷ ts)

abbrev pub relevant : Checkpoint → LightClientResponse → List (BlockHeader × Text)
relevant c r = filterb (λ (t : BlockHeader × Text). ltb c.height (t.0).height) r.header_chain

abbrev pub no_headers : List (BlockHeader × Text) → Bool
no_headers [] = true
no_headers (t ∷ ts) = false

module _ (x : External) where
  open x use {hex_decode, is_verifying_key, is_signature, ed25519_verify, sha256_hex, header_json}

  unfoldable pub compute_validator_set_hash : List Validator → Text
  compute_validator_set_hash vs = sha256_hex (joined (sort_by text_leb (map (λ v. v.id) vs)))

  unfoldable pub check_commit_signature : Text → Text → Text → Result LightError Unit
  check_commit_signature key message signature =
      found (hex_decode key) invalid_pubkey_hex >>= λ key_bytes.
      ensure (is_verifying_key key_bytes) invalid_pubkey
      >> (found (hex_decode (trim_start_0x signature)) invalid_signature_hex >>= λ bytes.
          ensure (is_signature bytes) invalid_signature
          >> ensure (ed25519_verify key_bytes message bytes) failed_signature)

  -- The validators seen after a signature: the same where it is skipped.
  abbrev pub see : Text → BlockSignature → List Text → Option Text → Result LightError (List Text)
  see message sig seen none = ok seen
  see message sig seen (some key) =
      if not (clean sig.pubkey == key) || holds sig.validator_id seen
      then ok seen
      else check_commit_signature key message sig.signature >> ok (sig.validator_id ∷ seen)

  unfoldable pub tally_signatures :
      Map Text Text → Text → List BlockSignature → List Text → Result LightError (List Text)
  unfolding check_commit_signature
  tally_signatures keys message [] seen = ok seen
  tally_signatures keys message (sig ∷ sigs) seen =
      see message sig seen (lookup sig.validator_id keys) >>= λ after.
      tally_signatures keys message sigs after

  unfoldable pub verify_pbft_consensus :
      Bool → Text → BlockHeader → List Validator → List BlockSignature → Result LightError Unit
  unfolding tally_signatures compute_validator_set_hash collect_keys quorum_for
  verify_pbft_consensus allow_small hash header vs sigs =
      ensure (compute_validator_set_hash vs == header.validator_set_hash) set_hash_mismatch
      >> ensure (not (nat_beq (length vs) 0)) empty_set
      >> (tally_signatures (collect_keys vs []) (commit_message hash) sigs [] >>= λ seen.
          ensure (not (ltb (length seen) (quorum_for allow_small (length vs))))
            insufficient_signatures)

  unfoldable pub verify_header : BlockHeader → Text → ℕ → Result LightError Unit
  verify_header header expected_hash expected_height =
      ensure (sha256_hex (header_json header) == expected_hash) header_hash_mismatch
      >> ensure (header.height == expected_height) height_mismatch

  -- A header after one with this height and hash; heights are `u64`.
  unfoldable pub verify_link : ℕ → Text → BlockHeader → Text → Result LightError Unit
  unfolding verify_header
  verify_link height prev header hash =
      verify_header header hash ((height + 1) % 2 ^ 64)
      >> ensure (header.prev_hash == prev) chain_break

  unfoldable pub verify_links : ℕ → Text → List (BlockHeader × Text) → Result LightError Unit
  unfolding verify_link
  verify_links height prev [] = ok tt
  verify_links height prev ((header, hash) ∷ rest) =
      let later = verify_links header.height hash rest in
      verify_link height prev header hash >> later

  unfoldable pub verify_header_chain :
      List (BlockHeader × Text) → Checkpoint → Result LightError Unit
  unfolding verify_links
  verify_header_chain headers checkpoint = verify_links checkpoint.height checkpoint.hash headers

  -- The end of `verify_package`: the headers above the checkpoint, or the checkpoint itself.
  abbrev pub check_anchor :
      Checkpoint
      → LightClientResponse
      → List (BlockHeader × Text)
      → Option (BlockHeader × Text)
      → Result LightError Unit
  check_anchor c r headers none =
      ensure (r.block_header.height == c.height && r.block_hash == c.hash) checkpoint_mismatch
  check_anchor c r headers (some (header, hash)) =
      ensure (hash == r.block_hash && header.height == r.block_header.height) terminal_mismatch
      >> verify_header_chain headers c

  -- `verify_package` from the answer on. The name of the package stands only in error messages.
  unfoldable pub check_response : Bool → Checkpoint → LightClientResponse → Result LightError Bool
  unfolding verify_pbft_consensus verify_header verify_header_chain
  check_response allow_small c r =
      if not (r.status == txt "verified")
      then ok false
      else (ensure (verify_proof x r.proof) bad_merkle_proof
          >> ensure (r.proof.expected_root == r.block_header.merkle_root) merkle_root_mismatch
          >> verify_header r.block_header r.block_hash r.block_header.height
          >> verify_pbft_consensus allow_small r.block_hash r.block_header r.active_validators
              r.pbft_signatures
          >> ensure (not (ltb c.height r.block_header.height && no_headers (relevant c r)))
              omitted_terminal
          >> check_anchor c r (relevant c r) (last (relevant c r))
          >> ok true)

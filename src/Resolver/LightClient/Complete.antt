-- ===== src/Resolver/LightClient/Complete.antt =====
-- crates/resolver/src/light_client.rs: a block that a quorum signed is accepted.
use chain_registry_core.Prelude.{
  ◌+◌, ◌≤◌, ◌<◌, Bool, true, false, some, List, [], ◌∷◌, map, Text, text_eq, text_beq_iff, nat_beq,
  ltb, ◌==◌, length, All, ok, trim_start_0x, ◌≡◌, refl, sym, arith,
}
use chain_registry_core.Prelude.Map.{lookup}
use chain_registry_core.Prelude.Keys.{holds, Distinct}
use chain_registry_core.Common.Block.{BlockHeader, BlockSignature}
use chain_registry_core.Common.External.{External}
use chain_registry_core.Consensus.ValidatorSet.{Validator}
use chain_registry_core.Resolver.LightClient.{
  clean, collect_keys, quorum_for, commit_message, check_commit_signature, see, tally_signatures,
  compute_validator_set_hash, verify_pbft_consensus,
}

module _ (x : External) where
  open x use {hex_decode, is_verifying_key, is_signature, ed25519_verify}

  -- A signature of the message under the key that the list has for the validator.
  abbrev pub IsCommit : List Validator → Text → BlockSignature → Type 0
  IsCommit vs message sig =
      (key_bytes : Text) × (bytes : Text) × (lookup sig.validator_id (collect_keys vs [])
        ≡ some (clean sig.pubkey))
      × (hex_decode (clean sig.pubkey) ≡ some key_bytes)
      × (is_verifying_key key_bytes ≡ true)
      × (hex_decode (trim_start_0x sig.signature) ≡ some bytes)
      × (is_signature bytes ≡ true)
      × (ed25519_verify key_bytes message bytes ≡ true)

  -- A header with the hash of the validators' set, and commits of distinct validators, as many as a
  -- quorum.
  pub record IsQuorumSigned (small : Bool) (hash : Text) (header : BlockHeader)
      (vs : List Validator) (sigs : List BlockSignature) : Type 0 where
    pub same_set : header.validator_set_hash ≡ compute_validator_set_hash x vs
    pub some_validator : 0 < length vs
    pub enough : quorum_for small (length vs) ≤ length sigs
    pub one_each : Distinct (map (λ (sig : BlockSignature). sig.validator_id) sigs)
    pub commits : All (IsCommit vs (commit_message hash)) sigs

  see-IsCommit :
      (vs : List Validator) (message : Text) (sig : BlockSignature) (seen : List Text)
      → IsCommit vs message sig
      → holds sig.validator_id seen ≡ false
      → see x message sig seen (lookup sig.validator_id (collect_keys vs []))
        ≡ ok (sig.validator_id ∷ seen)
  unfolding check_commit_signature
  see-IsCommit vs message sig seen (kb, sb, at, decoded, valid, sig_decoded, formed, signed)
        unseen =
      let same : (clean sig.pubkey == clean sig.pubkey) ≡ true =
        (text_beq_iff (clean sig.pubkey) (clean sig.pubkey)).1 refl in
      rw (at, see, same, unseen, decoded, valid, sig_decoded, formed, signed) refl

  -- The ids are seen one after the other.
  abbrev all_seen : List BlockSignature → List Text → List Text
  all_seen [] seen = seen
  all_seen (sig ∷ sigs) seen = all_seen sigs (sig.validator_id ∷ seen)

  length-all_seen :
      (sigs : List BlockSignature) (seen : List Text)
      → length (all_seen sigs seen) ≡ length sigs + length seen
  length-all_seen [] seen = omega arith
  length-all_seen (sig ∷ sigs) seen = omega (arith, length-all_seen sigs (sig.validator_id ∷ seen))

  -- None of the signatures is of a validator that was seen.
  abbrev AreUnseen : List Text → List BlockSignature → Type 0
  AreUnseen seen = All λ (sig : BlockSignature). holds sig.validator_id seen ≡ false

  AreUnseen-cons :
      (id : Text) (seen : List Text) (sigs : List BlockSignature)
      → holds id (map (λ (sig : BlockSignature). sig.validator_id) sigs) ≡ false
      → AreUnseen seen sigs
      → AreUnseen (id ∷ seen) sigs
  AreUnseen-cons id seen [] apart h = tt
  AreUnseen-cons id seen (sig ∷ sigs) apart h = (
    ground (arith, apart, h.0, text_beq_iff id sig.validator_id, text_beq_iff sig.validator_id id),
    AreUnseen-cons id seen sigs (ground (arith, apart)) h.1,
  )

  AreUnseen-nil : (sigs : List BlockSignature) → AreUnseen [] sigs
  AreUnseen-nil [] = tt
  AreUnseen-nil (sig ∷ sigs) = (refl, AreUnseen-nil sigs)

  tally_signatures-all_seen :
      (vs : List Validator) (message : Text) (sigs : List BlockSignature) (seen : List Text)
      → Distinct (map (λ (sig : BlockSignature). sig.validator_id) sigs)
      → All (IsCommit vs message) sigs
      → AreUnseen seen sigs
      → tally_signatures x (collect_keys vs []) message sigs seen ≡ ok (all_seen sigs seen)
  unfolding tally_signatures
  tally_signatures-all_seen vs message [] seen d h u = refl
  tally_signatures-all_seen vs message (sig ∷ sigs) seen d h u =
      rw (see-IsCommit vs message sig seen h.0 u.0) (
        tally_signatures-all_seen vs message sigs (sig.validator_id ∷ seen) d.1 h.1
          (AreUnseen-cons sig.validator_id seen sigs d.0 u.1))

  -- A client accepts the signatures of a block whose header has the hash of the listed validators, if
  -- they are commits of distinct ones of these, all valid for their keys in the list, and as many as
  -- a quorum.
  pub verify_pbft_consensus-IsQuorumSigned :
      (small : Bool) (hash : Text) (header : BlockHeader) (vs : List Validator)
      (sigs : List BlockSignature)
      → IsQuorumSigned small hash header vs sigs
      → verify_pbft_consensus x small hash header vs sigs ≡ ok tt
  unfolding verify_pbft_consensus
  verify_pbft_consensus-IsQuorumSigned small hash header vs sigs q =
      let same : (compute_validator_set_hash x vs == header.validator_set_hash) ≡ true =
        (text_beq_iff (compute_validator_set_hash x vs) header.validator_set_hash).1
          (sym q.same_set) in
      let some_one : nat_beq (length vs) 0 ≡ false = ground (arith, q.some_validator) in
      let size : ltb (length (all_seen sigs [])) (quorum_for small (length vs)) ≡ false =
        ground (arith, length-all_seen sigs [], q.enough) in
      let tallied =
        tally_signatures-all_seen vs (commit_message hash) sigs [] q.one_each q.commits
          (AreUnseen-nil sigs) in
      rw (same, some_one, tallied, size) refl

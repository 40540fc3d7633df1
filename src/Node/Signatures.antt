-- ===== src/Node/Signatures.antt =====
-- crates/node/src/sync.rs and gossip.rs: what a node checks of the votes in a block that a peer sends.
use chain_registry_core.Prelude.{
  ℕ, ◌+◌, ◌*◌, ◌/◌, max, Bool, true, false, not, ◌&&◌, ◌||◌, Option, none, some, List, [], ◌∷◌,
  ◌++◌, map, Text, txt, text_eq, ltb, nat_beq, if◌then◌else◌, length, Result, ok, err, ◌>>◌,
  to_ascii_lowercase,
}
use chain_registry_core.Prelude.Map.{Map, lookup, insert, values}
use chain_registry_core.Prelude.Keys.{holds}
use chain_registry_core.Common.Package.{
  ChainRecord, ValidatorSignature, ValidatorVote, approve, reject, is_consensus_grade_vote,
  canonical,
}
use chain_registry_core.Common.Block.{Block, Transaction, publish}
use chain_registry_core.Common.External.{External, scanner_profile_digest}
use chain_registry_core.Consensus.ValidatorSet.{Validator}

pub data SyncError : Type 0 where
  empty_set insufficient : SyncError

abbrev pub is_ok : Result SyncError (Unit {0}) → Bool
is_ok (ok a) = true
is_ok (err e) = false

abbrev pub is_approval : ValidatorVote → Bool
is_approval approve = true
is_approval (reject reason) = false

-- crates/node/src/gossip.rs
unfoldable pub gossip_vote_message : Text → Text → Bool → Text → Text → Text → Text
gossip_vote_message name content_hash approved key profile evidence =
    txt "creg-vote-v2|"
    ++ (name
        ++ (txt "|"
            ++ (content_hash
                ++ (txt "|"
                    ++ ((if approved then txt "true" else txt "false")
                        ++ (txt "|"
                            ++ (key ++ (txt "|" ++ (profile ++ (txt "|" ++ evidence))))))))))

abbrev pub known_keys : List Validator → List Text
known_keys vs = map (λ v. to_ascii_lowercase v.pubkey) vs

abbrev pub voter : ValidatorSignature → Text
voter sig = to_ascii_lowercase sig.validator_pubkey

-- Whether a signature is looked at.
unfoldable pub is_counted : List Text → ValidatorSignature → Bool
is_counted known sig =
    is_approval sig.vote
    && (is_consensus_grade_vote sig.ml_model_version sig.analysis_bundles sig.evidence_digest
        && holds (voter sig) known)

abbrev pub or_zero : Option ℕ → ℕ
or_zero none = 0
or_zero (some n) = n

abbrev pub bump : Text → Map Text ℕ → Map Text ℕ
bump key m = insert key (or_zero (lookup key m) + 1) m

abbrev pub largest : List ℕ → ℕ
largest [] = 0
largest (n ∷ ns) = max n (largest ns)

module _ (x : External) where
  open x use {hex_decode, is_verifying_key, is_signature, ed25519_verify}

  unfoldable pub profile_of : ValidatorSignature → Text
  profile_of sig =
      scanner_profile_digest x sig.ml_model_version sig.analysis_bundles
      ++ (txt ":" ++ sig.evidence_digest)

  abbrev pub vote_text : ChainRecord → ValidatorSignature → Text
  vote_text r sig =
      gossip_vote_message (canonical r.id) r.content_hash (is_approval sig.vote)
        sig.validator_pubkey (scanner_profile_digest x sig.ml_model_version sig.analysis_bundles)
        sig.evidence_digest

  abbrev pub key_signs : Option Text → Option Text → Text → Bool
  key_signs none bytes message = false
  key_signs (some key) none message = false
  key_signs (some key) (some bytes) message =
      is_verifying_key key && (is_signature bytes && ed25519_verify key message bytes)

  unfoldable pub is_signed : ChainRecord → ValidatorSignature → Bool
  unfolding gossip_vote_message
  is_signed r sig =
      key_signs (hex_decode sig.validator_pubkey) (hex_decode sig.signature) (vote_text r sig)

  -- The approvals by profile, and the keys seen.
  unfoldable pub group :
      List Text → ChainRecord → List ValidatorSignature → Map Text ℕ → List Text → Map Text ℕ
  unfolding is_counted is_signed profile_of
  group known r [] groups seen = groups
  group known r (sig ∷ sigs) groups seen =
      let skip = not (is_counted known sig) || holds (voter sig) seen in
      group known r sigs
        (if skip then groups else if is_signed r sig then bump (profile_of sig) groups else groups)
        (if skip then seen else voter sig ∷ seen)

  unfoldable pub check_record : List Text → ℕ → ChainRecord → Result SyncError (Unit {0})
  unfolding group
  check_record known quorum r =
      if ltb (largest (values (group known r r.validator_signatures [] []))) quorum
      then err insufficient
      else ok tt

  unfoldable pub check_records : List Text → ℕ → List Transaction → Result SyncError (Unit {0})
  unfolding check_record
  check_records known quorum [] = ok tt
  check_records known quorum (publish r ∷ txs) =
      check_record known quorum r >> check_records known quorum txs
  check_records known quorum (tx ∷ txs) = check_records known quorum txs

  unfoldable pub verify_block_signatures : Block → List Validator → Result SyncError (Unit {0})
  unfolding check_records
  verify_block_signatures b vs =
      if nat_beq b.header.height 0
      then ok tt
      else if nat_beq (length vs) 0
      then err empty_set
      else check_records (known_keys vs) (2 * length vs / 3 + 1) b.transactions

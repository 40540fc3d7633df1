-- ===== src/Consensus/Votes/Round.antt =====
-- crates/consensus/src/vote_accumulator.rs: the votes on one package. Warnings are left out, and with
-- them the ratio of degraded votes, which only they use.
use chain_registry_core.Prelude.{
  ℕ, ◌+◌, ◌-◌, ◌*◌, ◌/◌, ◌%◌, ◌^◌, Bool, true, false, not, ◌&&◌, ◌||◌, Option, none, some, List, [],
  ◌∷◌, ◌++◌, map, Text, txt, text_eq, nat_beq, trim_start_0x, ltb, leb, if◌then◌else◌, length,
  filterb, Result, ok, err,
}
use chain_registry_core.Prelude.Map.{Map, values, insert}
use chain_registry_core.Prelude.Count.{count}
use chain_registry_core.Common.Package.{
  AnalysisBundleRefs, ValidatorSignature, approve, reject, is_consensus_grade_vote, default_risk,
}
use chain_registry_core.Common.External.{External, scanner_profile_digest}

pub record IncomingVote : Type 0 where
  pub validator_id : Text
  pub validator_pubkey : Text
  pub content_hash : Text
  pub approved : Bool
  pub reject_reason : Option Text
  pub signature : Text
  pub received_at : ℕ
  pub ml_model_version : Option Text
  pub analysis_bundles : AnalysisBundleRefs
  pub evidence_digest : Text

pub data VotePhase : Type 0 where
  collecting prepare_quorum_reached commit_quorum_reached finalised timed_out : VotePhase
  failed : Text → VotePhase

pub data SignatureVerification : Type 0 where
  valid invalid malformed : SignatureVerification

pub data VoteError : Type 0 where
  invalid_signature malformed_signature no_active_round unknown_phase : VoteError

pub data CommitOutcome : Type 0 where
  verified : List ValidatorSignature → CommitOutcome
  rejected : Text → CommitOutcome

pub record PackageVoteState : Type 0 where
  pub canonical : Text
  pub started_at : ℕ
  pub phase : VotePhase
  pub prepare_votes : Map Text IncomingVote
  pub commit_votes : Map Text IncomingVote
  pub assigned_count : ℕ

-- `unwrap_or_default` on a string.
abbrev pub or_empty : Option Text → Text
or_empty none = []
or_empty (some t) = t

unfoldable pub is_consensus_grade : IncomingVote → Bool
is_consensus_grade v =
    is_consensus_grade_vote (or_empty v.ml_model_version) v.analysis_bundles v.evidence_digest

abbrev bool_text : Bool → Text
bool_text true = txt "true"
bool_text false = txt "false"

unfoldable pub canonical_vote_message : Text → Text → Bool → Text → Text → Text → Text
canonical_vote_message canonical content_hash approved pubkey profile evidence =
    txt "creg-vote-v2|"
    ++ (canonical
        ++ (txt "|"
            ++ (content_hash
                ++ (txt "|"
                    ++ (bool_text approved
                        ++ (txt "|"
                            ++ (pubkey ++ (txt "|" ++ (profile ++ (txt "|" ++ evidence))))))))))

unfoldable pub new_state : ℕ → Text → ℕ → PackageVoteState
new_state now canonical assigned_count = record {
  canonical = canonical;
  started_at = now;
  phase = VotePhase.collecting;
  prepare_votes = [];
  commit_votes = [];
  assigned_count = assigned_count;
}

-- `PackageVoteState::quorum`
unfoldable pub vote_quorum : PackageVoteState → ℕ
vote_quorum s = 2 * s.assigned_count % 2 ^ 64 / 3 + 1

abbrev pub decode_or : Option Text → (Text → SignatureVerification) → SignatureVerification
decode_or none k = malformed
decode_or (some t) k = k t

module _ (x : External) where
  open x use {hex_decode, is_verifying_key, is_signature, ed25519_verify}

  -- The message that the signature of a vote is checked against.
  unfoldable pub signed_message : PackageVoteState → IncomingVote → Text
  unfolding canonical_vote_message
  signed_message s v =
      canonical_vote_message s.canonical v.content_hash v.approved v.validator_pubkey
        (scanner_profile_digest x (or_empty v.ml_model_version) v.analysis_bundles)
        v.evidence_digest

  unfoldable pub verify_signature : PackageVoteState → IncomingVote → SignatureVerification
  unfolding signed_message trim_start_0x
  verify_signature s v = decode_or (hex_decode v.signature) λ sig.
      if not (is_signature sig)
      then malformed
      else decode_or (hex_decode (trim_start_0x v.validator_pubkey)) λ key.
        if not (nat_beq (length key) 32)
        then malformed
        else if not (is_verifying_key key)
        then malformed
        else if ed25519_verify key (signed_message s v) sig
        then valid
        else invalid

-- The votes in a map that may count toward a quorum, and those of them for and against.
unfoldable pub graded : Map Text IncomingVote → ℕ
graded m = count (λ (e : Text × IncomingVote). is_consensus_grade e.1) m

unfoldable pub approvals : Map Text IncomingVote → ℕ
approvals m = count (λ (e : Text × IncomingVote). is_consensus_grade e.1 && e.1.approved) m

unfoldable pub rejections : Map Text IncomingVote → ℕ
rejections m = count (λ (e : Text × IncomingVote). is_consensus_grade e.1 && not e.1.approved) m

-- `a - b` on a `usize`, which wraps where overflow is not checked.
abbrev pub sub64 : ℕ → ℕ → ℕ
sub64 a b = (a + 2 ^ 64 - b) % 2 ^ 64

unfoldable pub signature_of : IncomingVote → ValidatorSignature
signature_of v = record {
  validator_id = v.validator_id;
  validator_pubkey = v.validator_pubkey;
  signature = v.signature;
  vote = if v.approved then approve else reject (or_empty v.reject_reason);
  signed_at = v.received_at;
  ml_model_version = or_empty v.ml_model_version;
  analysis_bundles = v.analysis_bundles;
  evidence_digest = v.evidence_digest;
  deterministic_risk = default_risk;
}

unfoldable pub build_validator_sigs : PackageVoteState → Bool → List ValidatorSignature
unfolding signature_of
build_validator_sigs s approvers_only =
    map signature_of
      (filterb (λ (v : IncomingVote). not approvers_only || v.approved) (values s.commit_votes))

-- The first reason among the votes against, the degraded ones included.
unfoldable pub primary_reason : List IncomingVote → Text
primary_reason [] = txt "Consensus rejected"
primary_reason (v ∷ vs) =
    let rest = primary_reason vs in
    if v.approved then rest else elim v.reject_reason [ none ↦ rest | some reason ↦ reason ]

-- After the signature's check.
unfoldable pub store_prepare_vote : IncomingVote → PackageVoteState → Bool × PackageVoteState
unfolding graded vote_quorum
store_prepare_vote vote s =
    let s' : PackageVoteState = record s {
      prepare_votes = insert vote.validator_id vote s.prepare_votes;
    } in
    let is_collecting : Bool = elim s.phase [ VotePhase.collecting ↦ true | _ ↦ false ] in
    if leb (vote_quorum s) (graded s'.prepare_votes) && is_collecting
    then (true, record s' { phase = VotePhase.prepare_quorum_reached })
    else (false, s')

-- What the commits of a round decide.
unfoldable pub decide : PackageVoteState → Option CommitOutcome × PackageVoteState
unfolding approvals rejections vote_quorum build_validator_sigs primary_reason
decide s =
    if leb (vote_quorum s) (approvals s.commit_votes)
    then (let s' : PackageVoteState = record s { phase = VotePhase.finalised } in
        (some (verified (build_validator_sigs s' true)), s'))
    else if ltb (sub64 s.assigned_count (rejections s.commit_votes)) (vote_quorum s)
    then (let reason = primary_reason (values s.commit_votes) in
        (some (rejected reason), record s { phase = failed reason }))
    else (none, s)

-- `store_commit_vote` is the vote's insertion, and what the round then decides.
unfoldable pub store_commit_vote : IncomingVote → PackageVoteState → PackageVoteState
store_commit_vote vote s = record s { commit_votes = insert vote.validator_id vote s.commit_votes }

abbrev pub check_vote : Bool → SignatureVerification → Result VoteError (Unit {0})
check_vote true r = ok tt
check_vote false valid = ok tt
check_vote false invalid = err invalid_signature
check_vote false malformed = err malformed_signature

module _ (x : External) where
  unfoldable pub record_prepare :
      IncomingVote → Bool → PackageVoteState → Result VoteError Bool × PackageVoteState
  record_prepare vote skip s = elim (check_vote skip (verify_signature x s vote)) [
    | err e ↦ (err e, s)
    | ok _ ↦ (ok (store_prepare_vote vote s).0, (store_prepare_vote vote s).1)
  ]

  unfoldable pub record_commit :
      IncomingVote
      → Bool
      → PackageVoteState
      → Result VoteError (Option CommitOutcome) × PackageVoteState
  record_commit vote skip s = elim (check_vote skip (verify_signature x s vote)) [
    | err e ↦ (err e, s)
    | ok _ ↦ (ok (decide (store_commit_vote vote s)).0, (decide (store_commit_vote vote s)).1)
  ]

unfoldable pub is_timed_out : ℕ → PackageVoteState → Bool
is_timed_out now s = ltb 120 (now - s.started_at)

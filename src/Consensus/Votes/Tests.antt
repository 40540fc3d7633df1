-- ===== src/Consensus/Votes/Tests.antt =====
-- Votes on one package, and the theorems on them at these votes.
use chain_registry_core.Prelude.{
  ◌≤◌, ◌<◌, ◌≡◌, refl, true, false, none, some, List, [], ◌∷◌, ◌++◌, map, Text, txt, text_eq, arith,
  All, Bool, if◌then◌else◌,
}
use chain_registry_core.Prelude.Keys.{Distinct}
use chain_registry_core.Prelude.Count.{count}
use chain_registry_core.Common.Package.{
  AnalysisBundleRefs, is_consensus_grade_vote, scanner_profile_input, ValidatorSignature, approve,
}
use chain_registry_core.Common.External.{scanner_profile_digest}
use chain_registry_core.Common.Sample.{sample}
use chain_registry_core.Consensus.Votes.Round.{
  IncomingVote, VotePhase, PackageVoteState, new_state, vote_quorum, approvals, signed_message,
  store_commit_vote, record_commit, build_validator_sigs, verify_signature, is_consensus_grade,
  decide,
}
use chain_registry_core.Consensus.Votes.Accumulator.{VoteAccumulator, new_accumulator, open_round}
use chain_registry_core.Consensus.Votes.Outcome.{
  is_graded_sig, IsFiledState, verified_outcome, rejected_is_final,
}
use chain_registry_core.Consensus.Votes.Replay.{
  relabel, cast_all, commit_ignores_phase, one_key_finalises,
}
use chain_registry_core.Consensus.Votes.Expiry.{announcements, announcements_bounded, is_collecting}

abbrev bundles : AnalysisBundleRefs
bundles = record {
  policy_bundle_id = txt "p";
  feature_schema_id = txt "f";
  expert_bundle_id = txt "e";
  embedding_model_id = txt "m";
  index_epoch = txt "i";
  threshold_profile_id = txt "t";
  llm_prompt_profile_id = txt "l";
  osv_snapshot_epoch = txt "o";
}

abbrev left_pad : Text
left_pad = txt "npm:left-pad@1.0.0"

abbrev three : PackageVoteState
three = new_state 0 left_pad 3

abbrev unsigned : Bool → IncomingVote
unsigned yea = record {
  validator_id = txt "v1";
  validator_pubkey = txt "0123456789abcdef0123456789abcdef";
  content_hash = txt "h";
  approved = yea;
  reject_reason = if yea then none else some (txt "malware");
  signature = [];
  received_at = 1;
  ml_model_version = some (txt "v1.0");
  analysis_bundles = bundles;
  evidence_digest = txt "d";
}

abbrev signed : Bool → IncomingVote
signed yea = record (unsigned yea) {
  signature = txt "0123456789abcdef0123456789abcdef" ++ signed_message sample three (unsigned yea);
}

abbrev names : List Text
names = txt "v1" ∷ txt "v2" ∷ txt "v3" ∷ []

abbrev two_approvals : PackageVoteState
two_approvals =
    store_commit_vote (relabel (signed true) (txt "v2")) (store_commit_vote (signed true) three)

abbrev third : IncomingVote
third = relabel (signed true) (txt "v3")

two_approvals-IsFiledState : IsFiledState two_approvals
unfolding store_commit_vote new_state
two_approvals-IsFiledState = record {
  commits_once = (refl, (refl, tt));
  commits_keyed = (refl, (refl, tt));
}

abbrev handed_out : List ValidatorSignature
handed_out = build_validator_sigs (store_commit_vote third two_approvals) true

verified_outcome_example :
    (vote_quorum two_approvals ≤ count is_graded_sig handed_out)
    × All (λ t. t.vote ≡ approve) handed_out
    × Distinct (map (λ (t : ValidatorSignature). t.validator_id) handed_out)
    × ((record_commit sample third false two_approvals).1.phase ≡ VotePhase.finalised)
unfolding record_commit verify_signature new_state signed_message store_commit_vote decide
    is_consensus_grade is_consensus_grade_vote scanner_profile_digest scanner_profile_input
verified_outcome_example =
    verified_outcome sample third false two_approvals handed_out two_approvals-IsFiledState refl

abbrev against : IncomingVote
against = relabel (unsigned false) (txt "v3")

abbrev rejecting : PackageVoteState
rejecting = store_commit_vote against two_approvals

rejected_is_final_example : approvals rejecting.commit_votes < vote_quorum two_approvals
unfolding record_commit store_commit_vote new_state decide is_consensus_grade
    is_consensus_grade_vote
rejected_is_final_example =
    rejected_is_final sample against true two_approvals (txt "malware") rejecting.commit_votes refl
      (omega arith) (omega arith) (omega arith) (omega arith)

commit_ignores_phase_example :
    (record_commit sample third false (record two_approvals { phase = VotePhase.finalised })).0
    ≡ (record_commit sample third false (record two_approvals { phase = VotePhase.collecting })).0
commit_ignores_phase_example =
    commit_ignores_phase sample third false two_approvals VotePhase.finalised VotePhase.collecting

one_key_finalises_example :
    (cast_all sample (map (relabel (signed true)) names) three).phase ≡ VotePhase.finalised
unfolding new_state verify_signature signed_message is_consensus_grade is_consensus_grade_vote
    vote_quorum scanner_profile_digest scanner_profile_input
one_key_finalises_example =
    one_key_finalises sample (signed true) 0 left_pad 3 names (refl, (refl, (refl, tt)))
      (omega arith) (omega arith) refl refl refl refl

abbrev one_round : VoteAccumulator
one_round = open_round 0 left_pad 3 new_accumulator

abbrev prepares : List (IncomingVote × Bool)
prepares =
    (signed true, false)
    ∷ (relabel (signed true) (txt "v2"), false)
    ∷ (third, false)
    ∷ (third, true)
    ∷ []

announcements_bounded_example :
    announcements sample prepares three ≤ (if is_collecting three then 1 else 0)
announcements_bounded_example = announcements_bounded sample prepares three

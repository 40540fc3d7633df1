-- ===== src/Consensus/Evidence/Tests.antt =====
-- Signatures of three validators, and the theorems on verdicts at them.
use chain_registry_core.Prelude.{
  ◌+◌, ◌-◌, ◌*◌, ◌/◌, ◌%◌, ◌^◌, ◌≤◌, ◌<◌, ◌≡◌, refl, none, List, [], ◌∷◌, ◌++◌, Text, txt, text_eq,
  arith, length, ltb,
}
use chain_registry_core.Prelude.Keys.{Distinct}
use chain_registry_core.Prelude.Count.{count}
use chain_registry_core.Common.Package.{
  AnalysisBundleRefs, is_consensus_grade_vote, scanner_profile_input, ValidatorSignature,
  ValidatorVote, approve, reject, default_risk,
}
use chain_registry_core.Common.External.{scanner_profile_digest}
use chain_registry_core.Common.Sample.{sample}
use chain_registry_core.Consensus.Evidence.{unique_votes, unique_key, aggregate_evidence_votes}
use chain_registry_core.Consensus.Evidence.Unique.{voters, vote_of, last_vote, unique_votes_last}
use chain_registry_core.Consensus.Evidence.Tally.{approvals_under, counts_against}
use chain_registry_core.Consensus.Evidence.Verdict.{
  is_rejected, verified_evidence, unverified_evidence,
}

abbrev bundles : AnalysisBundleRefs
bundles = record {
  policy_bundle_id = txt "p";
  feature_schema_id = txt "f";
  expert_bundle_id = txt "e";
  embedding_model_id = txt "m";
  index_epoch = txt "i";
  threshold_profile_id = txt "t";
  llm_prompt_profile_id = txt "l";
  osv_snapshot_epoch = txt "o";
}

abbrev sig : Text → ValidatorVote → ValidatorSignature
sig id vote = record {
  validator_id = id;
  validator_pubkey = id;
  signature = [];
  vote = vote;
  signed_at = 1;
  ml_model_version = txt "v1.0";
  analysis_bundles = bundles;
  evidence_digest = txt "d";
  deterministic_risk = default_risk;
}

-- The first voter changes its mind.
abbrev approving : List ValidatorSignature
approving =
    sig (txt "a") (reject (txt "malware"))
    ∷ sig (txt "A") approve
    ∷ sig (txt "b") approve
    ∷ sig (txt "c") approve
    ∷ []

abbrev agreed : List ValidatorSignature
agreed = sig (txt "A") approve ∷ sig (txt "b") approve ∷ sig (txt "c") approve ∷ []

abbrev split : List ValidatorSignature
split = sig (txt "a") approve ∷ sig (txt "b") (reject (txt "malware")) ∷ []

unique_votes_last_example :
    Distinct (voters (unique_votes approving))
    × (vote_of (txt "pubkey:a") (unique_votes approving)
        ≡ last_vote (txt "pubkey:a") approving none)
unique_votes_last_example = unique_votes_last approving (txt "pubkey:a")

verified_evidence_example :
    (key : Text) × (rest : List ValidatorSignature) × (approvals_under sample key
        (unique_votes approving)
      ≡ agreed ++ rest)
    × (3 * 2 % 2 ^ 64 / 3 + 1 ≤ length agreed)
    × Distinct (voters agreed)
unfolding aggregate_evidence_votes unique_key is_consensus_grade_vote scanner_profile_digest
    scanner_profile_input
verified_evidence_example = verified_evidence sample approving agreed 3 refl

unverified_evidence_example :
    ((key : Text)
      → length (approvals_under sample key (unique_votes split)) < 3 * 2 % 2 ^ 64 / 3 + 1)
    × (is_rejected (aggregate_evidence_votes sample split 3)
        ≡ ltb (3 - count (counts_against sample) (unique_votes split)) (3 * 2 % 2 ^ 64 / 3 + 1))
unfolding aggregate_evidence_votes
unverified_evidence_example = unverified_evidence sample split 3 (λ out h. ground (arith, h))

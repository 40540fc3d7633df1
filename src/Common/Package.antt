-- ===== src/Common/Package.antt =====
-- crates/common/src/package.rs: package records, the analysis bundles that a vote names, and the
-- test for a vote that may count toward a quorum.
use chain_registry_core.Prelude.{
  ℕ, List, [], ◌++◌, Option, Bool, ◌&&◌, not, Text, txt, is_empty, starts_with, trim, if◌then◌else◌,
}

pub data FindingSeverity : Type 0 where
  critical high medium low : FindingSeverity

pub record Finding : Type 0 where
  pub id : Text
  pub title : Text
  pub severity : FindingSeverity
  pub description : Text
  pub file : Text
  pub line : Option ℕ

pub record PackageId : Type 0 where
  pub ecosystem : Text
  pub name : Text
  pub version : Text

-- `PackageId::canonical`
unfoldable pub canonical : PackageId → Text
canonical id = id.ecosystem ++ (txt ":" ++ (id.name ++ (txt "@" ++ id.version)))

pub record PackageManifest : Type 0 where
  pub allowed_network_hosts : List Text
  pub allowed_fs_writes : List Text
  pub spawns_processes : Bool
  pub allowed_process_spawns : List Text
  pub description : Option Text

pub record PublishRequest : Type 0 where
  pub id : PackageId
  pub content_hash : Text
  pub ipfs_cid : Text
  pub publisher_address : Text
  pub publisher_pubkey : Text
  pub signature : Text
  pub manifest : PackageManifest
  pub submitted_at : ℕ
  pub shielded : Bool
  pub key_bundle : Option Text
  pub pgp_signature : Option Text
  pub pgp_public_key : Option Text
  pub threshold : ℕ
  pub publisher_pubkeys : List Text
  pub signatures : List Text

pub record AnalysisBundleRefs : Type 0 where
  pub policy_bundle_id : Text
  pub feature_schema_id : Text
  pub expert_bundle_id : Text
  pub embedding_model_id : Text
  pub index_epoch : Text
  pub threshold_profile_id : Text
  pub llm_prompt_profile_id : Text
  pub osv_snapshot_epoch : Text

abbrev pub default_osv_snapshot_epoch : Text
default_osv_snapshot_epoch = txt "osv-off"

unfoldable pub effective_osv_snapshot_epoch : AnalysisBundleRefs → Text
unfolding trim
effective_osv_snapshot_epoch b =
    let trimmed = trim b.osv_snapshot_epoch in
    if is_empty trimmed then default_osv_snapshot_epoch else trimmed

-- A name that is not blank.
unfoldable pub is_named : Text → Bool
unfolding trim
is_named value = not (is_empty (trim value))

unfoldable pub is_consensus_complete : AnalysisBundleRefs → Bool
unfolding is_named effective_osv_snapshot_epoch
is_consensus_complete b =
    (is_named b.policy_bundle_id
      && (is_named b.feature_schema_id
          && (is_named b.expert_bundle_id
              && (is_named b.embedding_model_id
                  && (is_named b.index_epoch
                      && (is_named b.threshold_profile_id && is_named b.llm_prompt_profile_id))))))
    && is_named (effective_osv_snapshot_epoch b)

unfoldable pub is_consensus_grade_vote : Text → AnalysisBundleRefs → Text → Bool
unfolding is_consensus_complete is_named trim
is_consensus_grade_vote scanner_version bundles evidence_digest =
    not (starts_with (trim scanner_version) (txt "degraded"))
    && (is_consensus_complete bundles && is_named evidence_digest)

-- The text that `scanner_profile_digest` hashes.
unfoldable pub scanner_profile_input : AnalysisBundleRefs → Text → Text
unfolding trim effective_osv_snapshot_epoch
scanner_profile_input b scanner_version =
    txt "creg-scanner-profile-v1|scanner="
    ++ (trim scanner_version
        ++ (txt "|policy="
            ++ (trim b.policy_bundle_id
                ++ (txt "|features="
                    ++ (trim b.feature_schema_id
                        ++ (txt "|experts="
                            ++ (trim b.expert_bundle_id
                                ++ (txt "|embedding="
                                    ++ (trim b.embedding_model_id
                                        ++ (txt "|index="
                                            ++ (trim b.index_epoch
                                                ++ (txt "|thresholds="
                                                    ++ (trim b.threshold_profile_id
                                                        ++ (txt "|llm_prompt="
                                                            ++ (trim b.llm_prompt_profile_id
                                                            ++ (txt "|osv="
                                                            ++ trim (
                                                            effective_osv_snapshot_epoch
                                                            b)))))))))))))))))

pub record DeterministicRiskSummary : Type 0 where
  pub score : ℕ
  pub deterministic_score : ℕ
  pub advisory_score : ℕ
  pub band : Text
  pub disposition : Text
  pub deterministic_findings : ℕ
  pub advisory_findings : ℕ
  pub critical_findings : ℕ
  pub high_findings : ℕ
  pub medium_findings : ℕ
  pub low_findings : ℕ
  pub reasons : List Text

abbrev pub default_risk : DeterministicRiskSummary
default_risk = record {
  score = 0;
  deterministic_score = 0;
  advisory_score = 0;
  band = [];
  disposition = [];
  deterministic_findings = 0;
  advisory_findings = 0;
  critical_findings = 0;
  high_findings = 0;
  medium_findings = 0;
  low_findings = 0;
  reasons = [];
}

pub data ValidatorVote : Type 0 where
  approve : ValidatorVote
  reject : Text → ValidatorVote

pub record ValidatorSignature : Type 0 where
  pub validator_id : Text
  pub validator_pubkey : Text
  pub signature : Text
  pub vote : ValidatorVote
  pub signed_at : ℕ
  pub ml_model_version : Text
  pub analysis_bundles : AnalysisBundleRefs
  pub evidence_digest : Text
  pub deterministic_risk : DeterministicRiskSummary

pub data PackageStatus : Type 0 where
  verified : PackageStatus
  pending : PackageStatus
  revoked : Text → PackageStatus

pub record ChainRecord : Type 0 where
  pub id : PackageId
  pub content_hash : Text
  pub ipfs_cid : Text
  pub publisher_pubkey : Text
  pub block_hash : Text
  pub published_at : ℕ
  pub validator_signatures : List ValidatorSignature
  pub status : PackageStatus
  pub shielded : Bool
  pub key_bundle : Option Text
  pub pgp_fingerprint : Option Text
  pub findings : List Finding
  pub analysis_bundles : AnalysisBundleRefs
  pub evidence_digest : Text
  pub deterministic_risk : DeterministicRiskSummary
  pub access_count : ℕ
  pub last_accessed : Option ℕ
  pub threshold : ℕ
  pub publisher_pubkeys : List Text
  pub manifest : Option PackageManifest

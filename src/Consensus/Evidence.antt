-- ===== src/Consensus/Evidence.antt =====
-- crates/consensus/src/evidence_votes.rs: the verdict on a package from a list of signatures, which
-- must agree on the scanner profile and on the evidence.
pub mod Unique
pub mod Tally
pub mod Verdict
mod Tests
use chain_registry_core.Prelude.{
  ℕ, ◌+◌, ◌-◌, ◌*◌, ◌/◌, ◌%◌, ◌^◌, Bool, true, false, Option, none, some, List, [], ◌∷◌, ◌++◌, map,
  Text, txt, text_eq, is_empty, to_ascii_lowercase, leb, ltb, if◌then◌else◌, length, ◌==◌, set,
}
use chain_registry_core.Prelude.Map.{Map, lookup, insert}
use chain_registry_core.Common.Package.{
  ValidatorSignature, ValidatorVote, approve, reject, is_consensus_grade_vote,
}
use chain_registry_core.Common.External.{External, scanner_profile_digest}

pub data EvidenceVoteOutcome : Type 0 where
  verified : List ValidatorSignature → EvidenceVoteOutcome
  rejected : Text → EvidenceVoteOutcome

-- Who voted: the key, or the id where the key is missing.
unfoldable pub unique_key : ValidatorSignature → Text
unfolding to_ascii_lowercase
unique_key sig =
    if is_empty sig.validator_pubkey
    then txt "id:" ++ to_ascii_lowercase sig.validator_id
    else txt "pubkey:" ++ to_ascii_lowercase sig.validator_pubkey

-- The loop that fills `unique_votes`, with the position of each voter's vote: a later vote of the
-- same voter takes the place of the earlier one.
unfoldable pub collect :
    List ValidatorSignature → Map Text ℕ → List ValidatorSignature → List ValidatorSignature
collect [] seen_indices votes = votes
collect (sig ∷ sigs) seen_indices votes = elim (lookup (unique_key sig) seen_indices) [
  | some index ↦ collect sigs seen_indices (set votes index sig)
  | none ↦ collect sigs (insert (unique_key sig) (length votes) seen_indices) (votes ++ sig ∷ [])
]

unfoldable pub unique_votes : List ValidatorSignature → List ValidatorSignature
unfolding collect
unique_votes sigs = collect sigs [] []

abbrev pub is_graded : ValidatorSignature → Bool
is_graded s = is_consensus_grade_vote s.ml_model_version s.analysis_bundles s.evidence_digest

abbrev pub approvals_of : Text → Map Text (List ValidatorSignature) → List ValidatorSignature
approvals_of key m = elim (lookup key m) [ none ↦ [] | some sigs ↦ sigs ]

module _ (x : External) where
  unfoldable pub profile_key : ValidatorSignature → Text
  profile_key s =
      scanner_profile_digest x s.ml_model_version s.analysis_bundles
      ++ (txt ":" ++ s.evidence_digest)

  unfoldable pub consensus_profile_key : ValidatorSignature → Option Text
  unfolding profile_key
  consensus_profile_key s = if is_graded s then some (profile_key s) else none

  -- The loop over the unique votes: the approvals by profile and the reasons of the rejections so
  -- far. The left result ends it early.
  unfoldable pub tally :
      ℕ
      → List ValidatorSignature
      → Map Text (List ValidatorSignature)
      → List Text
      → Option (List ValidatorSignature) × List Text
  unfolding consensus_profile_key
  tally quorum [] by_profile reasons = (none, reasons)
  tally quorum (s ∷ rest) by_profile reasons = elim (consensus_profile_key s) [
    | none ↦ tally quorum rest by_profile reasons
    | some key ↦ elim s.vote [
      | approve ↦ elim (leb quorum (length (approvals_of key by_profile ++ s ∷ []))) [
        | true ↦ (some (approvals_of key by_profile ++ s ∷ []), reasons)
        | false ↦
            tally quorum rest (insert key (approvals_of key by_profile ++ s ∷ []) by_profile)
              reasons
      ]
      | reject reason ↦ tally quorum rest by_profile (reasons ++ reason ∷ [])
    ]
  ]

  abbrev pub first_reason : List Text → Text
  first_reason [] = txt "Consensus rejected"
  first_reason (r ∷ rs) = r

  abbrev pub evidence_quorum : ℕ → ℕ
  evidence_quorum assigned_count = assigned_count * 2 % 2 ^ 64 / 3 + 1

  -- What the loop's result means.
  unfoldable pub conclude :
      ℕ → Option (List ValidatorSignature) × List Text → Option EvidenceVoteOutcome
  conclude assigned_count (some sigs, reasons) = some (verified sigs)
  conclude assigned_count (none, reasons) =
      if ltb (assigned_count - length reasons) (evidence_quorum assigned_count)
      then some (rejected (first_reason reasons))
      else none

  unfoldable pub aggregate_evidence_votes : List ValidatorSignature → ℕ → Option EvidenceVoteOutcome
  unfolding tally unique_votes conclude
  aggregate_evidence_votes sigs assigned_count =
      conclude assigned_count (tally (evidence_quorum assigned_count) (unique_votes sigs) [] [])

-- ===== src/Consensus/Evidence/Verdict.antt =====
-- What a verdict means: crates/consensus/src/evidence_votes.rs.
use chain_registry_core.Prelude.{
  ℕ, ◌+◌, ◌-◌, ◌*◌, ◌/◌, ◌%◌, ◌^◌, ◌≤◌, ◌<◌, ◌≡◌, ◌≢◌, refl, ap, ◌∙◌, subst, Bool, true, false,
  Option, none, some, List, [], ◌∷◌, ◌++◌, Text, text_eq, length, arith, filterb, ltb,
}
use chain_registry_core.Prelude.Keys.{holds, Distinct}
use chain_registry_core.Prelude.Count.{count}
use chain_registry_core.Common.Package.{ValidatorSignature}
use chain_registry_core.Common.External.{External}
use chain_registry_core.Consensus.Evidence.{
  EvidenceVoteOutcome, verified, rejected, unique_votes, tally, conclude, evidence_quorum,
  aggregate_evidence_votes,
}
use chain_registry_core.Consensus.Evidence.Unique.{voters, unique_votes_last}
use chain_registry_core.Consensus.Evidence.Tally.{
  approvals_under, counts_against, tally-some, tally-none,
}

abbrev Votes : Type 0
Votes = List ValidatorSignature

holds-filterb :
    (k : Text) (p : ValidatorSignature → Bool) (vs : Votes)
    → holds k (voters vs) ≡ false
    → holds k (voters (filterb p vs)) ≡ false
holds-filterb k p [] h = refl
holds-filterb k p (v ∷ vs) h = ground (arith, holds-filterb k p vs)

filterb-Distinct :
    (p : ValidatorSignature → Bool) (vs : Votes)
    → Distinct (voters vs)
    → Distinct (voters (filterb p vs))
filterb-Distinct p [] d = tt
filterb-Distinct p (v ∷ vs) d = ground (arith, filterb-Distinct p vs d.1, holds-filterb _ p vs d.0)

holds-prefix :
    (k : Text) (vs ws : Votes) → holds k (voters (vs ++ ws)) ≡ false → holds k (voters vs) ≡ false
holds-prefix k [] ws h = refl
holds-prefix k (v ∷ vs) ws h = ground (arith, holds-prefix k vs ws)

prefix-Distinct : (vs ws : Votes) → Distinct (voters (vs ++ ws)) → Distinct (voters vs)
prefix-Distinct [] ws d = tt
prefix-Distinct (v ∷ vs) ws d = (holds-prefix _ vs ws d.0, prefix-Distinct vs ws d.1)

abbrev pub is_rejected : Option EvidenceVoteOutcome → Bool
is_rejected none = false
is_rejected (some (verified out)) = false
is_rejected (some (rejected reason)) = true

module _ (x : External) where
  -- The verdict from the loop's result.
  conclude-verified :
      (n : ℕ) (r : Option Votes × List Text) (sigs : Votes)
      → conclude x n r ≡ some (verified sigs)
      → r ≡ (some sigs, r.1)
  unfolding conclude
  conclude-verified n (some votes, reasons) sigs h = ground arith
  conclude-verified n (none, reasons) sigs h = ground arith

  -- Where the verdict is for the package, the signatures are the first consensus-grade approvals of
  -- one scanner profile and evidence among the unique votes, a quorum of them, of distinct voters.
  pub verified_evidence :
      (sigs out : Votes) (n : ℕ)
      → aggregate_evidence_votes x sigs n ≡ some (verified out)
      → (key : Text) × (rest : Votes) × (approvals_under x key (unique_votes sigs) ≡ out ++ rest)
        × (n * 2 % 2 ^ 64 / 3 + 1 ≤ length out)
        × Distinct (voters out)
  unfolding aggregate_evidence_votes
  verified_evidence sigs out n h =
      let r = tally x (evidence_quorum x n) (unique_votes sigs) [] [] in
      let (key, rest, enough, made) =
        tally-some x (evidence_quorum x n) (unique_votes sigs) [] [] r.1 out
          (conclude-verified n r out h) in
      (
        key,
        rest,
        made,
        enough,
        prefix-Distinct out rest (
            subst (λ l. Distinct (voters l)) made
              (filterb-Distinct _ (unique_votes sigs) (unique_votes_last sigs key).0)),
      )

  conclude-other :
      (n : ℕ) (r : Option Votes × List Text)
      → ((out : Votes) → conclude x n r ≢ some (verified out))
      → (r ≡ (none, r.1))
        × (is_rejected (conclude x n r) ≡ ltb (n - length r.1) (evidence_quorum x n))
  unfolding conclude
  conclude-other n (some votes, reasons) h = absurd (h votes refl)
  conclude-other n (none, reasons) h = ground arith

  -- Without a verdict for the package, no profile has a quorum of approvals among the unique votes;
  -- and the package is rejected exactly when the validators that did not reject it are too few.
  pub unverified_evidence :
      (sigs : Votes) (n : ℕ)
      → ((out : Votes) → aggregate_evidence_votes x sigs n ≢ some (verified out))
      → ((key : Text) → length (approvals_under x key (unique_votes sigs)) < n * 2 % 2 ^ 64 / 3 + 1)
        × (is_rejected (aggregate_evidence_votes x sigs n)
            ≡ ltb (n - count (counts_against x) (unique_votes sigs)) (n * 2 % 2 ^ 64 / 3 + 1))
  unfolding aggregate_evidence_votes
  unverified_evidence sigs n h =
      let q = evidence_quorum x n in
      let r = tally x q (unique_votes sigs) [] [] in
      let (open_end, verdict) = conclude-other n r h in
      let (few, counted) =
        tally-none x q (unique_votes sigs) [] [] r.1 (λ key. omega arith) open_end in
      (few, verdict ∙ ap (λ c. ltb (n - c) q) (counted ∙ omega arith))

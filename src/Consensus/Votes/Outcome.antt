-- ===== src/Consensus/Votes/Outcome.antt =====
-- What a decision on a package means: crates/consensus/src/vote_accumulator.rs.
use chain_registry_core.Prelude.{
  ◌+◌, ◌^◌, ◌≤◌, ◌<◌, ◌≡◌, refl, sym, ap, ◌∙◌, subst, text_beq_iff, inl, inr, Bool, true, false,
  not, ◌||◌, Option, none, some, List, [], ◌∷◌, map, Text, text_eq, filterb, arith, All, Bool-cases,
  ok,
}
use chain_registry_core.Prelude.Map.{Map, values, lookup, insert-All, insert-IsMap, IsMap}
use chain_registry_core.Prelude.Keys.{holds, Distinct}
use chain_registry_core.Prelude.Count.{count}
use chain_registry_core.Common.Package.{ValidatorSignature, approve, is_consensus_grade_vote}
use chain_registry_core.Common.External.{External}
use chain_registry_core.Consensus.Votes.Round.{
  IncomingVote, VotePhase, CommitOutcome, verified, rejected, PackageVoteState, is_consensus_grade,
  vote_quorum, approvals, rejections, sub64, signature_of, decide, store_commit_vote, record_commit,
}

-- A signature that may count toward a quorum.
abbrev pub is_graded_sig : ValidatorSignature → Bool
is_graded_sig s = is_consensus_grade_vote s.ml_model_version s.analysis_bundles s.evidence_digest

abbrev approving : Map Text IncomingVote → List IncomingVote
approving m = filterb (λ (v : IncomingVote). not true || v.approved) (values m)

approving_sigs :
    (m : Map Text IncomingVote) → All (λ s. s.vote ≡ approve) (map signature_of (approving m))
unfolding signature_of
approving_sigs [] = tt
approving_sigs ((k, v) ∷ m) = ground (arith, approving_sigs m)

approvals-count :
    (m : Map Text IncomingVote) → approvals m ≡ count is_graded_sig (map signature_of (approving m))
unfolding approvals signature_of is_consensus_grade
approvals-count [] = refl
approvals-count ((k, v) ∷ m) = ground (arith, approvals-count m)

-- The decision itself, where it is for the package.
decide-verified :
    (s : PackageVoteState) (sigs : List ValidatorSignature)
    → (decide s).0 ≡ some (verified sigs)
    → (vote_quorum s ≤ approvals s.commit_votes)
      × (sigs ≡ map signature_of (approving s.commit_votes))
      × ((decide s).1 ≡ record s { phase = VotePhase.finalised })
unfolding decide
decide-verified s sigs h = ground arith

-- The commits of a round are filed by validator, each validator's once.
pub record IsFiledState (s : PackageVoteState) : Type 0 where
  pub commits_once : IsMap s.commit_votes
  pub commits_keyed : All (λ (e : Text × IncomingVote). e.1.validator_id ≡ e.0) s.commit_votes

store_commit_vote-IsFiledState :
    (vote : IncomingVote) (s : PackageVoteState)
    → IsFiledState s
    → IsFiledState (store_commit_vote vote s)
unfolding store_commit_vote
store_commit_vote-IsFiledState vote s v = record {
  commits_once = insert-IsMap vote.validator_id vote s.commit_votes v.commits_once;
  commits_keyed =
      insert-All (λ (e : Text × IncomingVote). e.1.validator_id ≡ e.0) vote.validator_id vote
        s.commit_votes refl v.commits_keyed;
}

record_commit-IsFiledState :
    (x : External) (vote : IncomingVote) (skip : Bool) (s : PackageVoteState)
    → IsFiledState s
    → IsFiledState (record_commit x vote skip s).1
unfolding record_commit decide
record_commit-IsFiledState x vote skip s v = ground (arith, store_commit_vote-IsFiledState vote s v)

abbrev ids : List ValidatorSignature → List Text
ids = map (λ (s : ValidatorSignature). s.validator_id)

unseen :
    (k : Text) (m : Map Text IncomingVote)
    → lookup k m ≡ none
    → All (λ (e : Text × IncomingVote). e.1.validator_id ≡ e.0) m
    → holds k (ids (map signature_of (approving m))) ≡ false
unfolding signature_of
unseen k [] h a = refl
unseen k ((j, v) ∷ m) h a =
    ground (arith, unseen k m, text_beq_iff k j, text_beq_iff k v.validator_id)

ids-Distinct :
    (m : Map Text IncomingVote)
    → IsMap m
    → All (λ (e : Text × IncomingVote). e.1.validator_id ≡ e.0) m
    → Distinct (ids (map signature_of (approving m)))
unfolding signature_of
ids-Distinct [] one a = tt
ids-Distinct ((k, v) ∷ m) one a = elim (Bool-cases v.approved) [
  | inl yea ↦ rw yea (
    subst (λ i. holds i (ids (map signature_of (approving m))) ≡ false) (sym a.0)
        (unseen k m one.0 a.1),
    ids-Distinct m one.1 a.1,
  )
  | inr nay ↦ rw nay (ids-Distinct m one.1 a.1)
]

accepted_commit :
    (x : External) (vote : IncomingVote) (skip : Bool) (s : PackageVoteState)
    (o : Option CommitOutcome)
    → (record_commit x vote skip s).0 ≡ ok o
    → ((decide (store_commit_vote vote s)).0 ≡ o)
      × ((record_commit x vote skip s).1 ≡ (decide (store_commit_vote vote s)).1)
unfolding record_commit
accepted_commit x vote skip s o h = ground arith

-- When a commit finalises a package, the signatures handed out are approvals of distinct
-- validators, a quorum of them carry consensus-grade metadata, and the round is finalised.
pub verified_outcome :
    (x : External) (vote : IncomingVote) (skip : Bool) (s : PackageVoteState)
    (sigs : List ValidatorSignature)
    → IsFiledState s
    → (record_commit x vote skip s).0 ≡ ok (some (verified sigs))
    → (vote_quorum s ≤ count is_graded_sig sigs)
      × All (λ t. t.vote ≡ approve) sigs
      × Distinct (map (λ (t : ValidatorSignature). t.validator_id) sigs)
      × ((record_commit x vote skip s).1.phase ≡ VotePhase.finalised)
unfolding vote_quorum store_commit_vote
verified_outcome x vote skip s sigs v h =
    let s' = store_commit_vote vote s in
    let v' = store_commit_vote-IsFiledState vote s v in
    let (result, after) = accepted_commit x vote skip s (some (verified sigs)) h in
    let (enough, made, fin) = decide-verified s' sigs result in
    (
      rw made (omega (arith, enough, approvals-count s'.commit_votes)),
      rw made (approving_sigs s'.commit_votes),
      rw made (ids-Distinct s'.commit_votes v'.commits_once v'.commits_keyed),
      ap (λ (t : PackageVoteState). t.phase) (after ∙ fin),
    )

decide-rejected :
    (s : PackageVoteState) (reason : Text)
    → (decide s).0 ≡ some (rejected reason)
    → sub64 s.assigned_count (rejections s.commit_votes) < vote_quorum s
unfolding decide
decide-rejected s reason h = ground arith

-- When a commit rejects a package, no later votes can verify it: with at most as many
-- consensus-grade votes as there are assigned validators, and no fewer rejections among them, the
-- approvals stay below the quorum. This needs that the rejections do not outnumber the validators.
pub rejected_is_final :
    (x : External) (vote : IncomingVote) (skip : Bool) (s : PackageVoteState) (reason : Text)
    (later : Map Text IncomingVote)
    → (record_commit x vote skip s).0 ≡ ok (some (rejected reason))
    → s.assigned_count < 2 ^ 64
    → rejections (store_commit_vote vote s).commit_votes ≤ s.assigned_count
    → rejections (store_commit_vote vote s).commit_votes ≤ rejections later
    → approvals later + rejections later ≤ s.assigned_count
    → approvals later < vote_quorum s
unfolding vote_quorum store_commit_vote
rejected_is_final x vote skip s reason later h small fits more total =
    let s' = store_commit_vote vote s in
    omega (
      arith,
      decide-rejected s' reason (accepted_commit x vote skip s (some (rejected reason)) h).0,
    )

-- ===== src/Consensus/Votes/Replay.antt =====
-- What the check of a vote leaves open: crates/consensus/src/vote_accumulator.rs.
use chain_registry_core.Prelude.{
  ℕ, suc, ◌+◌, ◌^◌, ◌<◌, ◌≡◌, refl, ap, ◌∙◌, text_beq_iff, inl, inr, Bool, true, false, none, List,
  [], ◌∷◌, map, Text, text_eq, leb, if◌then◌else◌, length, arith, All, Bool-cases,
}
use chain_registry_core.Prelude.Map.{Map, lookup, insert, lookup-insert}
use chain_registry_core.Prelude.Keys.{holds, Distinct}
use chain_registry_core.Common.External.{External}
use chain_registry_core.Consensus.Votes.Round.{
  IncomingVote, VotePhase, valid, PackageVoteState, is_consensus_grade, vote_quorum, approvals,
  rejections, verify_signature, new_state, decide, store_commit_vote, record_commit,
}

decide_ignores_phase :
    (s : PackageVoteState) (p q : VotePhase)
    → (decide (record s { phase = p })).0 ≡ (decide (record s { phase = q })).0
unfolding decide
decide_ignores_phase s p q = ground arith

verify_ignores_phase :
    (x : External) (v : IncomingVote) (s : PackageVoteState) (p : VotePhase)
    → verify_signature x (record s { phase = p }) v ≡ verify_signature x s v
unfolding verify_signature
verify_ignores_phase x v s p = refl

-- The decision on a commit does not depend on the phase: a commit can decide a round that has no
-- quorum of prepares, and decide once more a round that is finalised, failed or timed out.
pub commit_ignores_phase :
    (x : External) (vote : IncomingVote) (skip : Bool) (s : PackageVoteState) (p q : VotePhase)
    → (record_commit x vote skip (record s { phase = p })).0
      ≡ (record_commit x vote skip (record s { phase = q })).0
unfolding record_commit store_commit_vote
commit_ignores_phase x vote skip s p q = ground (
  arith,
  verify_ignores_phase x vote s p,
  verify_ignores_phase x vote s q,
  decide_ignores_phase (store_commit_vote vote s) p q,
)

nil_of_length : (ids : List Text) → length ids ≡ 0 → ids ≡ []
nil_of_length [] h = refl
nil_of_length (i ∷ ids) h = absurd (omega arith)

-- The vote under another validator's name.
abbrev pub relabel : IncomingVote → Text → IncomingVote
relabel v id = record v { validator_id = id }

abbrev pub cast_all : External → List IncomingVote → PackageVoteState → PackageVoteState
cast_all x [] s = s
cast_all x (v ∷ vs) s = cast_all x vs (record_commit x v false s).1

module _ (x : External) (v : IncomingVote) where
  verify_relabelled :
      (s : PackageVoteState) (id : Text)
      → verify_signature x s (relabel v id) ≡ verify_signature x s v
  unfolding verify_signature
  verify_relabelled s id = refl

  approvals-insert :
      (id : Text) (m : Map Text IncomingVote)
      → is_consensus_grade v ≡ true
      → v.approved ≡ true
      → lookup id m ≡ none
      → (approvals (insert id (relabel v id) m) ≡ suc (approvals m))
        × (rejections (insert id (relabel v id) m) ≡ rejections m)
  unfolding approvals rejections is_consensus_grade
  approvals-insert id [] g a h = ground arith
  approvals-insert id ((j, w) ∷ m) g a h = ground (arith, approvals-insert id m g a)

  relabel_step :
      (id : Text) (s : PackageVoteState)
      → verify_signature x s v ≡ valid
      → is_consensus_grade v ≡ true
      → v.approved ≡ true
      → lookup id s.commit_votes ≡ none
      → rejections s.commit_votes ≡ 0
      → 0 < s.assigned_count
      → s.assigned_count < 2 ^ 64
      → (record_commit x (relabel v id) false s).1 ≡ (
          if leb (vote_quorum s) (suc (approvals s.commit_votes))
          then record (store_commit_vote (relabel v id) s) { phase = VotePhase.finalised }
          else store_commit_vote (relabel v id) s)
  unfolding record_commit decide store_commit_vote
  relabel_step id s ok_sig g a fresh none_against some_assigned small =
      ground (arith, verify_relabelled s id, approvals-insert id s.commit_votes g a fresh)

  abbrev Unused : List Text → Map Text IncomingVote → Type 0
  Unused ids m = All (λ i. lookup i m ≡ none) ids

  Unused-insert :
      (id : Text) (w : IncomingVote) (m : Map Text IncomingVote) (ids : List Text)
      → holds id ids ≡ false
      → Unused ids m
      → Unused ids (insert id w m)
  Unused-insert id w m [] h u = tt
  Unused-insert id w m (i ∷ ids) h u = ground (
    arith,
    Unused-insert id w m ids,
    lookup-insert id i w m,
    text_beq_iff id i,
    text_beq_iff i id,
  )

  verify_stored :
      (w : IncomingVote) (s : PackageVoteState)
      → verify_signature x (store_commit_vote w s) v ≡ verify_signature x s v
  unfolding verify_signature store_commit_vote
  verify_stored w s = refl

  cast_relabelled :
      (ids : List Text) (s : PackageVoteState)
      → Distinct ids
      → verify_signature x s v ≡ valid
      → is_consensus_grade v ≡ true
      → v.approved ≡ true
      → Unused ids s.commit_votes
      → rejections s.commit_votes ≡ 0
      → 0 < s.assigned_count
      → s.assigned_count < 2 ^ 64
      → approvals s.commit_votes < vote_quorum s
      → approvals s.commit_votes + length ids ≡ vote_quorum s
      → (cast_all x (map (relabel v) ids) s).phase ≡ VotePhase.finalised
  unfolding store_commit_vote vote_quorum
  cast_relabelled [] s d valid_sig g a u none_against pos small low exact = absurd (omega arith)
  cast_relabelled (id ∷ ids) s d valid_sig g a u none_against pos small low exact =
      let step = relabel_step id s valid_sig g a u.0 none_against pos small in
      let (one_more, still_none) = approvals-insert id s.commit_votes g a u.0 in
      elim (Bool-cases (leb (vote_quorum s) (suc (approvals s.commit_votes)))) [
        | inl full ↦
            let no_more : ids ≡ [] = nil_of_length ids (ground arith) in
            ap
              (λ js.
                (cast_all x (map (relabel v) js) (record_commit x (relabel v id) false s).1).phase)
              no_more
            ∙ (let done : (record_commit x (relabel v id) false s).1
                    ≡ record (store_commit_vote (relabel v id) s) { phase = VotePhase.finalised } =
                  step ∙ rw full in
                ap (λ (t : PackageVoteState). t.phase) done)
        | inr more ↦
            let s' = store_commit_vote (relabel v id) s in
            let there : (record_commit x (relabel v id) false s).1 ≡ s' = step ∙ rw more in
            ap (λ t. (cast_all x (map (relabel v) ids) t).phase) there
            ∙ cast_relabelled ids s' d.1 (verify_stored (relabel v id) s ∙ valid_sig) g a
                (Unused-insert id (relabel v id) s.commit_votes ids d.0 u.1)
                (still_none ∙ none_against) pos small (ground (arith, one_more))
                (omega (arith, one_more))
      ]

  Unused-nil : (ids : List Text) → Unused ids []
  Unused-nil [] = tt
  Unused-nil (i ∷ ids) = (refl, Unused-nil ids)

  -- One consensus-grade approval with a valid signature, sent under as many distinct names as make
  -- a quorum, finalises a new round of between 1 and 2^63 - 1 validators: no name is compared with the
  -- key that signs.
  pub one_key_finalises :
      (now : ℕ) (canonical : Text) (n : ℕ) (ids : List Text)
      → Distinct ids
      → 0 < n
      → n < 2 ^ 63
      → length ids ≡ vote_quorum (new_state now canonical n)
      → verify_signature x (new_state now canonical n) v ≡ valid
      → is_consensus_grade v ≡ true
      → v.approved ≡ true
      → (cast_all x (map (relabel v) ids) (new_state now canonical n)).phase ≡ VotePhase.finalised
  unfolding new_state vote_quorum approvals rejections
  one_key_finalises now canonical n ids d pos small exact valid_sig g a =
      cast_relabelled ids (new_state now canonical n) d valid_sig g a (Unused-nil ids) refl pos
        (omega (arith, small)) (omega arith) (omega arith)

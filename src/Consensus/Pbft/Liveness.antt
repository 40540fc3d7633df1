-- ===== src/Consensus/Pbft/Liveness.antt =====
-- A round in which a quorum votes, with no view change in between, is finalised:
-- crates/consensus/src/pbft.rs.
use chain_registry_core.Prelude.{
  ℕ, suc, ◌+◌, ◌≤◌, ◌<◌, ◌≡◌, refl, sym, ap, ◌∙◌, subst, inl, inr, none, List, [], ◌∷◌, ◌++◌, Text,
  txt, text_eq, text_beq_iff, leb, if◌then◌else◌, length, arith, All, ok, Bool-cases,
}
use mathlib.Core.Path.{ap₂, subst₂}
use chain_registry_core.Prelude.Map.{Map, lookup, insert, IsMap, length-insert, lookup-insert}
use chain_registry_core.Common.Block.{Block, BlockSignature}
use chain_registry_core.Common.External.{External, block_hash}
use chain_registry_core.Consensus.ValidatorSet.{ValidatorSet, active_count}
use chain_registry_core.Consensus.ValidatorSet.Membership.{is_member-active_count}
use chain_registry_core.Consensus.Pbft.Round.{
  PbftConfig, PbftPhase, PbftRound, quorum, quorum_threshold, with_config, check_proposal,
  verify_block_signature, propose, receive_prepare, receive_commit, store_prepare, store_commit,
}
use chain_registry_core.Consensus.Pbft.Invariant.{
  Signed, Event, proposed, prepared, committed, after, run, check_proposal-phase, quorum-pos,
}

abbrev pub Votes : Type 0
Votes = Map Text BlockSignature

-- The votes as the messages that bring them.
abbrev pub prepares : ℕ → Votes → List Event
prepares now [] = []
prepares now ((id, sig) ∷ vs) = prepared now id sig ∷ prepares now vs

abbrev pub commits : Votes → List Event
commits [] = []
commits ((id, sig) ∷ vs) = committed id sig ∷ commits vs

-- None of the votes is in the map yet.
abbrev Fresh : Votes → Votes → Type 0
Fresh m = All (λ (e : Text × BlockSignature). lookup e.0 m ≡ none)

Fresh-insert :
    (k : Text) (sig : BlockSignature) (m vs : Votes)
    → lookup k vs ≡ none
    → Fresh m vs
    → Fresh (insert k sig m) vs
Fresh-insert k sig m [] h f = tt
Fresh-insert k sig m ((j, s) ∷ vs) h f =
    ground
      (arith, Fresh-insert k sig m vs, lookup-insert k j sig m, text_beq_iff k j, text_beq_iff j k)

Fresh-nil : (vs : Votes) → Fresh [] vs
Fresh-nil [] = tt
Fresh-nil (v ∷ vs) = (refl, Fresh-nil vs)

run-append :
    (x : External) (a b : List Event) (r : PbftRound) → run x (a ++ b) r ≡ run x b (run x a r)
unfolding run
run-append x [] b r = refl
run-append x (e ∷ a) b r = run-append x a b (after x e r)

module _ (x : External) where
  -- A round past its prepare phase takes no more prepares.
  late_prepares :
      (now : ℕ) (vs : Votes) (r : PbftRound)
      → r.phase ≡ PbftPhase.commit
      → run x (prepares now vs) r ≡ r
  unfolding run after
  late_prepares now [] r ph = refl
  late_prepares now ((id, sig) ∷ vs) r ph =
      let same : (receive_prepare x now id sig r).1 ≡ r = unfold receive_prepare in ground arith in
      ap (run x (prepares now vs)) same ∙ late_prepares now vs r ph

  late_commits :
      (vs : Votes) (r : PbftRound) → r.phase ≡ PbftPhase.finalised → run x (commits vs) r ≡ r
  unfolding run after
  late_commits [] r ph = refl
  late_commits ((id, sig) ∷ vs) r ph =
      let same : (receive_commit x id sig r).1 ≡ r = unfold receive_commit in ground arith in
      ap (run x (commits vs)) same ∙ late_commits vs r ph

  -- What an accepted prepare does.
  accepted_prepare :
      (now : ℕ) (id : Text) (sig : BlockSignature) (r : PbftRound)
      → r.phase ≡ PbftPhase.prepare
      → Signed x r.validator_set (block_hash x r.block) (txt "prepare") (id, sig)
      → (receive_prepare x now id sig r).1 ≡ (store_prepare now id sig r).1
  unfolding receive_prepare verify_block_signature
  accepted_prepare now id sig r ph s = ground arith

  accepted_commit :
      (id : Text) (sig : BlockSignature) (r : PbftRound)
      → r.phase ≡ PbftPhase.commit
      → Signed x r.validator_set (block_hash x r.block) (txt "commit") (id, sig)
      → (receive_commit x id sig r).1 ≡ (store_commit id sig r).1
  unfolding receive_commit verify_block_signature
  accepted_commit id sig r ph s = ground arith

  with_prepare : Text → BlockSignature → PbftRound → PbftRound
  with_prepare id sig r = record r { prepare_sigs = insert id sig r.prepare_sigs }

  with_commit : Text → BlockSignature → PbftRound → PbftRound
  with_commit id sig r = record r { commit_sigs = insert id sig r.commit_sigs }

  prepare_step :
      (now : ℕ) (id : Text) (sig : BlockSignature) (r : PbftRound)
      → r.phase ≡ PbftPhase.prepare
      → Signed x r.validator_set (block_hash x r.block) (txt "prepare") (id, sig)
      → lookup id r.prepare_sigs ≡ none
      → (receive_prepare x now id sig r).1 ≡ (
          if leb (quorum r) (suc (length r.prepare_sigs))
          then record (with_prepare id sig r) { phase = PbftPhase.commit; phase_entered_at = now }
          else with_prepare id sig r)
  unfolding store_prepare with_prepare
  prepare_step now id sig r ph s fresh =
      accepted_prepare now id sig r ph s ∙ ground (arith, length-insert id sig r.prepare_sigs)

  commit_step :
      (id : Text) (sig : BlockSignature) (r : PbftRound)
      → r.phase ≡ PbftPhase.commit
      → Signed x r.validator_set (block_hash x r.block) (txt "commit") (id, sig)
      → lookup id r.commit_sigs ≡ none
      → (receive_commit x id sig r).1 ≡ (
          if leb (quorum r) (suc (length r.commit_sigs))
          then record (with_commit id sig r) { phase = PbftPhase.finalised }
          else with_commit id sig r)
  unfolding store_commit with_commit
  commit_step id sig r ph s fresh =
      accepted_commit id sig r ph s ∙ ground (arith, length-insert id sig r.commit_sigs)

  -- The parts of a round that votes of the prepare phase leave alone.
  abbrev Kept : PbftRound → PbftRound → Type 0
  Kept r r' =
      (r'.block ≡ r.block)
      × (r'.validator_set ≡ r.validator_set)
      × (r'.config ≡ r.config)
      × (r'.commit_sigs ≡ r.commit_sigs)

  prepares_reach_commit :
      (now : ℕ) (vs : Votes) (r : PbftRound)
      → r.phase ≡ PbftPhase.prepare
      → length r.prepare_sigs < quorum r
      → IsMap vs
      → All (Signed x r.validator_set (block_hash x r.block) (txt "prepare")) vs
      → Fresh r.prepare_sigs vs
      → quorum r ≤ length r.prepare_sigs + length vs
      → (r' : PbftRound) × (run x (prepares now vs) r ≡ r')
        × (r'.phase ≡ PbftPhase.commit)
        × Kept r r'
  unfolding run after with_prepare quorum
  prepares_reach_commit now [] r ph low one s fresh enough = absurd (omega arith)
  prepares_reach_commit now ((id, sig) ∷ vs) r ph low one s fresh enough =
      let step = prepare_step now id sig r ph s.0 fresh.0 in
      let r₁ : PbftRound = with_prepare id sig r in
      elim (Bool-cases (leb (quorum r) (suc (length r.prepare_sigs)))) [
        | inl full ↦
            let r₂ : PbftRound = record r₁ { phase = PbftPhase.commit; phase_entered_at = now } in
            let there : (receive_prepare x now id sig r).1 ≡ r₂ = step ∙ rw full in
            (
              r₂,
              ap (run x (prepares now vs)) there ∙ late_prepares now vs r₂ refl,
              refl,
              (refl, refl, refl, refl),
            )
        | inr more ↦
            let there : (receive_prepare x now id sig r).1 ≡ r₁ = step ∙ rw more in
            let longer = length-insert id sig r.prepare_sigs in
            let (r', reached, fin, kept) =
              prepares_reach_commit now vs r₁ ph (ground (arith, longer)) one.1 s.1
                (Fresh-insert id sig r.prepare_sigs vs one.0 fresh.1) (ground (arith, longer)) in
            (r', ap (run x (prepares now vs)) there ∙ reached, fin, kept)
      ]

  commits_finalise :
      (vs : Votes) (r : PbftRound)
      → r.phase ≡ PbftPhase.commit
      → length r.commit_sigs < quorum r
      → IsMap vs
      → All (Signed x r.validator_set (block_hash x r.block) (txt "commit")) vs
      → Fresh r.commit_sigs vs
      → quorum r ≤ length r.commit_sigs + length vs
      → (run x (commits vs) r).phase ≡ PbftPhase.finalised
  unfolding run after with_commit quorum
  commits_finalise [] r ph low one s fresh enough = absurd (omega arith)
  commits_finalise ((id, sig) ∷ vs) r ph low one s fresh enough =
      let step = commit_step id sig r ph s.0 fresh.0 in
      let r₁ : PbftRound = with_commit id sig r in
      elim (Bool-cases (leb (quorum r) (suc (length r.commit_sigs)))) [
        | inl full ↦
            let r₂ : PbftRound = record r₁ { phase = PbftPhase.finalised } in
            let there : (receive_commit x id sig r).1 ≡ r₂ = step ∙ rw full in
            ap (λ (q : PbftRound). q.phase)
              (ap (run x (commits vs)) there ∙ late_commits vs r₂ refl)
        | inr more ↦
            let there : (receive_commit x id sig r).1 ≡ r₁ = step ∙ rw more in
            let longer = length-insert id sig r.commit_sigs in
            ap (λ q. (run x (commits vs) q).phase) there
            ∙ commits_finalise vs r₁ ph (ground (arith, longer)) one.1 s.1
                (Fresh-insert id sig r.commit_sigs vs one.0 fresh.1) (ground (arith, longer))
      ]

  -- A new round whose proposal passes the checks is finalised by prepares and then commits of
  -- distinct validators, a quorum of each, whose signatures pass the checks for the round.
  pub honest_round_finalises :
      (now : ℕ) (b : Block) (vs : ValidatorSet) (config : PbftConfig) (ps cs : Votes)
      → check_proposal x (with_config now b vs config) b.header.proposer_id ≡ ok tt
      → IsMap ps
      → IsMap cs
      → All (Signed x vs (block_hash x b) (txt "prepare")) ps
      → All (Signed x vs (block_hash x b) (txt "commit")) cs
      → quorum (with_config now b vs config) ≤ length ps
      → quorum (with_config now b vs config) ≤ length cs
      → (run x
          (proposed now b.header.proposer_id ∷ prepares now ps ++ commits cs)
          (with_config now b vs config)).phase
        ≡ PbftPhase.finalised
  unfolding with_config quorum run after
  honest_round_finalises now b vs config ps cs passed one_p one_c signed_p signed_c many_p many_c =
      let r = with_config now b vs config in
      let id = b.header.proposer_id in
      let r₁ : PbftRound = record r { phase = PbftPhase.prepare; phase_entered_at = now } in
      let opened : (propose x now id r).1 ≡ r₁ = unfold propose in rw (passed, propose) in
      let member = (check_proposal-phase x r id passed).1 in
      let pos = quorum-pos x r (is_member-active_count id vs member) in
      let (r₂, reached, ph, (same_block, same_set, same_config, same_commits)) =
        prepares_reach_commit now ps r₁ refl pos one_p signed_p (Fresh-nil ps) (omega arith) in
      let none_yet : length r₂.commit_sigs ≡ 0 = ap length same_commits in
      let same_quorum : quorum r₂ ≡ quorum r =
        ap₂ (λ s c. quorum_threshold (active_count s) c.allow_small_cluster_quorum) same_set
          same_config in
      let signed =
        subst₂ (λ s k. All (Signed x s (block_hash x k) (txt "commit")) cs) (sym same_set)
          (sym same_block) signed_c in
      let path : run x (prepares now ps ++ commits cs) (propose x now id r).1
          ≡ run x (commits cs) r₂ =
        ap (run x (prepares now ps ++ commits cs)) opened
        ∙ run-append x (prepares now ps) (commits cs) r₁
        ∙ ap (run x (commits cs)) reached in
      ap (λ (q : PbftRound). q.phase) path
      ∙ commits_finalise cs r₂ ph (omega arith) one_c signed
          (subst (λ m. Fresh m cs) (sym same_commits) (Fresh-nil cs)) (omega arith)

-- ===== src/Consensus/Pbft/Safety.antt =====
-- Quorums of finalised rounds meet: the safety that crates/consensus/src/pbft.rs rests on.
use chain_registry_core.Prelude.{
  ℕ, ◌+◌, ◌*◌, ◌/◌, ◌≤◌, ◌≡◌, subst, inl, inr, Bool, true, false, ◌&&◌, Text, txt, text_eq, length,
  arith, All, All-map, Option-cases,
}
use chain_registry_core.Prelude.Map.{
  Map, contains_key, contains_key-lookup, lookup, lookup-All, IsMap,
}
use chain_registry_core.Prelude.Count.{count, count-and, count-lt}
use chain_registry_core.Common.Block.{BlockSignature}
use chain_registry_core.Common.External.{External, block_hash}
use chain_registry_core.Consensus.ValidatorSet.{ValidatorSet, is_member, active_count}
use chain_registry_core.Consensus.ValidatorSet.Membership.{Entry, votes_in, members-le-count}
use chain_registry_core.Consensus.Pbft.Round.{PbftPhase, PbftRound, quorum, check_signature}
use chain_registry_core.Consensus.Pbft.Invariant.{IsValid, Signed}

-- The active validators whose votes stand in both maps.
abbrev pub shared {ℓ} : {V : Type ℓ} → ValidatorSet → Map Text V → Map Text V → ℕ
shared vs a b = count (λ (e : Entry). votes_in a e && votes_in b e) vs.validators

module _ (x : External) where
  Signed-is_member :
      (vs : ValidatorSet) (hash phase : Text) (e : Text × BlockSignature)
      → Signed x vs hash phase e
      → is_member e.0 vs ≡ true
  unfolding check_signature is_member
  Signed-is_member vs hash phase e h = ground arith

  All-Signed-is_member :
      (vs : ValidatorSet) (hash phase : Text) (m : Map Text BlockSignature)
      → All (Signed x vs hash phase) m
      → All (λ e. is_member e.0 vs ≡ true) m
  All-Signed-is_member vs hash phase m =
      All-map (Signed x vs hash phase) (λ e. is_member e.0 vs ≡ true)
        (Signed-is_member vs hash phase) m

  shared_bound :
      (vs : ValidatorSet) (a b : Map Text BlockSignature)
      → IsMap a
      → IsMap b
      → All (λ e. is_member e.0 vs ≡ true) a
      → All (λ e. is_member e.0 vs ≡ true) b
      → length a + length b ≤ active_count vs + shared vs a b
  unfolding active_count
  shared_bound vs a b ma mb sa sb = omega (
    arith,
    members-le-count vs a ma sa,
    members-le-count vs b mb sb,
    count-and (votes_in a) (votes_in b) (λ (e : Entry). e.1.is_active) (λ e h. ground arith)
        (λ e h. ground arith) vs.validators,
  )

  finalised_quorum :
      (r : PbftRound)
      → IsValid x r
      → r.phase ≡ PbftPhase.finalised
      → r.config.allow_small_cluster_quorum ≡ false
      → 2 * active_count r.validator_set / 3 + 1 ≤ length r.commit_sigs
  unfolding quorum
  finalised_quorum r v fin strict = ground (arith, v.progress)

  -- Two finalised rounds over one validator set, both with the strict quorum, have commits of at
  -- least n/3 + 1 active validators in common.
  finalised_overlap :
      (r s : PbftRound)
      → IsValid x r
      → IsValid x s
      → s.validator_set ≡ r.validator_set
      → r.phase ≡ PbftPhase.finalised
      → s.phase ≡ PbftPhase.finalised
      → r.config.allow_small_cluster_quorum ≡ false
      → s.config.allow_small_cluster_quorum ≡ false
      → active_count r.validator_set / 3 + 1 ≤ shared r.validator_set r.commit_sigs s.commit_sigs
  finalised_overlap r s v w same fr fs sr ss =
      let hash = block_hash x s.block in
      let in_r = All-Signed-is_member _ _ (txt "commit") r.commit_sigs v.commits_signed in
      let in_s =
        subst (λ vs. All (λ e. is_member e.0 vs ≡ true) s.commit_sigs) same
          (All-Signed-is_member _ hash (txt "commit") s.commit_sigs w.commits_signed) in
      let many =
        subst (λ vs. 2 * active_count vs / 3 + 1 ≤ length s.commit_sigs) same
          (finalised_quorum s w fs ss) in
      omega (
        arith,
        shared_bound r.validator_set r.commit_sigs s.commit_sigs v.commits_once w.commits_once in_r
            in_s,
        finalised_quorum r v fr sr,
        many,
      )

-- A validator that signs whatever it likes.
abbrev pub Faulty : Type 0
Faulty = Text → Bool

abbrev pub faulty_count : Faulty → ValidatorSet → ℕ
faulty_count faulty vs = count (λ (e : Entry). e.1.is_active && faulty e.0) vs.validators

module _ (x : External) where
  -- A stored vote, with its signature, of a key of the map.
  Signed-by :
      (vs : ValidatorSet) (hash phase id : Text) (m : Map Text BlockSignature)
      → All (Signed x vs hash phase) m
      → contains_key id m ≡ true
      → (sig : BlockSignature) × Signed x vs hash phase (id, sig)
  Signed-by vs hash phase id m signed present = elim (Option-cases (lookup id m)) [
    | inl missing ↦ absurd (ground (arith, contains_key-lookup id m))
    | inr (sig, found) ↦ (sig, lookup-All (Signed x vs hash phase) id m signed found)
  ]

  -- Two valid rounds over one validator set, neither of which allows the small cluster's quorum, that
  -- are both finalised are for one block, where at most n/3 of the set's active validators are faulty,
  -- and no other validator has valid commits for both blocks unless these are one.
  pub finalised_agreement :
      (faulty : Faulty) (r s : PbftRound)
      → IsValid x r
      → IsValid x s
      → s.validator_set ≡ r.validator_set
      → r.phase ≡ PbftPhase.finalised
      → s.phase ≡ PbftPhase.finalised
      → r.config.allow_small_cluster_quorum ≡ false
      → s.config.allow_small_cluster_quorum ≡ false
      → faulty_count faulty r.validator_set ≤ active_count r.validator_set / 3
      → ((id : Text) (a b : BlockSignature)
          → faulty id ≡ false
          → Signed x r.validator_set (block_hash x r.block) (txt "commit") (id, a)
          → Signed x s.validator_set (block_hash x s.block) (txt "commit") (id, b)
          → block_hash x r.block ≡ block_hash x s.block)
      → block_hash x r.block ≡ block_hash x s.block
  finalised_agreement faulty r s v w same fr fs sr ss few honest =
      let common = λ (e : Entry). votes_in r.commit_sigs e && votes_in s.commit_sigs e in
      let bad = λ (e : Entry). e.1.is_active && faulty e.0 in
      let enough = finalised_overlap x r s v w same fr fs sr ss in
      let (e, voted, good) = count-lt common bad r.validator_set.validators (omega arith) in
      let in_r : contains_key e.0 r.commit_sigs ≡ true = ground arith in
      let in_s : contains_key e.0 s.commit_sigs ≡ true = ground arith in
      let (a, signed_r) = Signed-by _ _ (txt "commit") e.0 r.commit_sigs v.commits_signed in_r in
      let (b, signed_s) = Signed-by _ _ (txt "commit") e.0 s.commit_sigs w.commits_signed in_s in
      honest e.0 a b (ground arith) signed_r signed_s

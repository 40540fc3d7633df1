-- ===== src/Consensus/Votes/Expiry.antt =====
-- Which rounds time out, and how often a round announces its prepare quorum:
-- crates/consensus/src/vote_accumulator.rs.
use chain_registry_core.Prelude.{
  ℕ, suc, ◌≤◌, ◌≡◌, refl, ◌∙◌, inl, inr, Bool, true, false, none, some, List, [], ◌∷◌, Text,
  text_eq, text_beq_iff, if◌then◌else◌, arith, Option-cases, ok, err, ◌==◌, filterb,
}
use chain_registry_core.Prelude.Map.{Map, keys, lookup, update, lookup-update, lookup-insert, IsMap}
use chain_registry_core.Prelude.Keys.{holds, Distinct, holds-keys-filterb, keys-filterb-Distinct}
use chain_registry_core.Common.External.{External}
use chain_registry_core.Consensus.Votes.Round.{
  IncomingVote, VotePhase, PackageVoteState, record_prepare, store_prepare_vote,
}
use chain_registry_core.Consensus.Votes.Accumulator.{
  VoteAccumulator, is_expired, expire_each, expire_timed_out, record_vote, record_vote_in,
}

abbrev pub expired : PackageVoteState → PackageVoteState
expired s = record s { phase = VotePhase.timed_out }

lookup-expire_each :
    (k : Text) (ks : List Text) (m : Map Text PackageVoteState)
    → Distinct ks
    → lookup k (expire_each ks m) ≡ (
        if holds k ks
        then elim (lookup k m) [ none ↦ none | some s ↦ some (expired s) ]
        else lookup k m)
unfolding expire_each
lookup-expire_each k [] m d = refl
lookup-expire_each k (j ∷ js) m d =
    lookup-expire_each k js (update j expired m) d.1
    ∙ ground (arith, lookup-update j k expired m, text_beq_iff k j)

-- A sweep marks exactly the rounds that are too old and still collecting, and reports their names.
expire_marks_expired :
    (now : ℕ) (k : Text) (a : VoteAccumulator)
    → IsMap a.rounds
    → (lookup k (expire_timed_out now a).1.rounds ≡ elim (lookup k a.rounds) [
      | none ↦ none
      | some s ↦ if is_expired now s then some (expired s) else some s
    ])
      × (holds k (expire_timed_out now a).0
          ≡ elim (lookup k a.rounds) [ none ↦ false | some s ↦ is_expired now s ])
unfolding expire_timed_out
expire_marks_expired now k a one =
    let names = keys (filterb (λ (e : Text × PackageVoteState). is_expired now e.1) a.rounds) in
    let found = holds-keys-filterb (is_expired now) k a.rounds one in
    (
      lookup-expire_each k names a.rounds (keys-filterb-Distinct (is_expired now) a.rounds one)
          ∙ ground (arith, found),
      found,
    )

-- A vote for one package leaves the round of every other as it is.
record_vote_frame :
    (x : External) (canonical phase k : Text) (vote : IncomingVote) (skip : Bool)
    (a : VoteAccumulator)
    → (k == canonical) ≡ false
    → lookup k (record_vote x canonical phase vote skip a).1.rounds ≡ lookup k a.rounds
unfolding record_vote
record_vote_frame x canonical phase k vote skip a other =
    elim (Option-cases (lookup canonical a.rounds)) [
      | inl missing ↦ ground arith
      | inr (s, found) ↦
          ground (arith, lookup-insert canonical k (record_vote_in x phase vote skip s).1 a.rounds)
    ]

-- How many of the prepares announce a quorum.
unfoldable pub announcements : External → List (IncomingVote × Bool) → PackageVoteState → ℕ
announcements x [] s = 0
announcements x ((v, skip) ∷ vs) s =
    let rest = announcements x vs (record_prepare x v skip s).1 in
    elim (record_prepare x v skip s).0 [ ok true ↦ suc rest | ok false ↦ rest | err _ ↦ rest ]

abbrev pub is_collecting : PackageVoteState → Bool
is_collecting s = elim s.phase [ VotePhase.collecting ↦ true | _ ↦ false ]

announced :
    (x : External) (v : IncomingVote) (skip : Bool) (s : PackageVoteState)
    → ((record_prepare x v skip s).0 ≡ ok true
        → is_collecting (record_prepare x v skip s).1 ≡ false)
      × (is_collecting s ≡ false
          → (is_collecting (record_prepare x v skip s).1 ≡ false)
            × ((record_prepare x v skip s).0 ≡ ok true → ⊥))
unfolding record_prepare store_prepare_vote
announced x v skip s = ground arith

-- Whatever prepares come in, checked or not, a round that is collecting announces its prepare quorum
-- at most once, and any other round never does.
pub announcements_bounded :
    (x : External) (vs : List (IncomingVote × Bool)) (s : PackageVoteState)
    → announcements x vs s ≤ (if is_collecting s then 1 else 0)
unfolding announcements
announcements_bounded x [] s = ground arith
announcements_bounded x ((v, skip) ∷ vs) s =
    ground (arith, announced x v skip s, announcements_bounded x vs (record_prepare x v skip s).1)

-- ===== src/Consensus/Votes/Accumulator.antt =====
-- crates/consensus/src/vote_accumulator.rs: the rounds of all packages.
use chain_registry_core.Prelude.{
  ℕ, Bool, true, false, ◌&&◌, Option, none, some, List, [], ◌∷◌, Text, txt, text_eq, ◌==◌,
  if◌then◌else◌, length, filterb, Result, ok, err,
}
use chain_registry_core.Prelude.Map.{Map, keys, lookup, insert, remove, update}
use chain_registry_core.Common.External.{External}
use chain_registry_core.Consensus.Votes.Round.{
  IncomingVote, VotePhase, VoteError, no_active_round, unknown_phase, CommitOutcome,
  PackageVoteState, new_state, record_prepare, record_commit, is_timed_out,
}

pub record VoteAccumulator : Type 0 where
  pub rounds : Map Text PackageVoteState

unfoldable pub new_accumulator : VoteAccumulator
new_accumulator = record { rounds = [] }

-- A round of the same name is replaced.
unfoldable pub open_round : ℕ → Text → ℕ → VoteAccumulator → VoteAccumulator
unfolding new_state
open_round now canonical assigned_count a = record {
  rounds = insert canonical (new_state now canonical assigned_count) a.rounds;
}

abbrev pub nothing_decided : Result VoteError Bool → Result VoteError (Option CommitOutcome)
nothing_decided (ok quorum) = ok none
nothing_decided (err e) = err e

module _ (x : External) where
  -- `phase` is "prepare", "commit" or any other text.
  unfoldable pub record_vote_in :
      Text
      → IncomingVote
      → Bool
      → PackageVoteState
      → Result VoteError (Option CommitOutcome) × PackageVoteState
  record_vote_in phase vote skip s =
      if phase == txt "prepare"
      then (nothing_decided (record_prepare x vote skip s).0, (record_prepare x vote skip s).1)
      else if phase == txt "commit"
      then record_commit x vote skip s
      else (err unknown_phase, s)

  unfoldable pub record_vote :
      Text
      → Text
      → IncomingVote
      → Bool
      → VoteAccumulator
      → Result VoteError (Option CommitOutcome) × VoteAccumulator
  record_vote canonical phase vote skip a = elim (lookup canonical a.rounds) [
    | none ↦ (err no_active_round, a)
    | some s ↦ (
      (record_vote_in phase vote skip s).0,
      record { rounds = insert canonical (record_vote_in phase vote skip s).1 a.rounds },
    )
  ]

-- Too old, and still collecting.
unfoldable pub is_expired : ℕ → PackageVoteState → Bool
unfolding is_timed_out
is_expired now s = is_timed_out now s && elim s.phase [
  | VotePhase.collecting ↦ true
  | VotePhase.prepare_quorum_reached ↦ true
  | _ ↦ false
]

unfoldable pub expire_each : List Text → Map Text PackageVoteState → Map Text PackageVoteState
expire_each [] m = m
expire_each (k ∷ ks) m = expire_each ks (update k (λ s. record s { phase = VotePhase.timed_out }) m)

unfoldable pub expire_timed_out : ℕ → VoteAccumulator → List Text × VoteAccumulator
unfolding expire_each is_expired
expire_timed_out now a =
    let timed_out = keys (filterb (λ (e : Text × PackageVoteState). is_expired now e.1) a.rounds) in
    (timed_out, record { rounds = expire_each timed_out a.rounds })

unfoldable pub remove_round : Text → VoteAccumulator → VoteAccumulator
remove_round canonical a = record { rounds = remove canonical a.rounds }

unfoldable pub active_rounds : VoteAccumulator → ℕ
active_rounds a = length a.rounds

unfoldable pub get_state : Text → VoteAccumulator → Option PackageVoteState
get_state canonical a = lookup canonical a.rounds

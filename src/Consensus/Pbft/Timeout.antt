-- ===== src/Consensus/Pbft/Timeout.antt =====
-- Which rounds a sweep of the engine touches: `timeout_rounds` and `cleanup_stale_rounds` of
-- crates/consensus/src/pbft.rs.
use chain_registry_core.Prelude.{
  ℕ, ◌≡◌, refl, ◌∙◌, inl, inr, Bool, Option, none, some, List, [], ◌∷◌, Text, text_eq, text_beq_iff,
  length, arith, ◌==◌, if◌then◌else◌, Option-cases, filterb,
}
use chain_registry_core.Prelude.Map.{Map, keys, lookup, lookup-insert, IsMap}
use chain_registry_core.Prelude.Count.{count}
use chain_registry_core.Prelude.Keys.{
  holds, Distinct, holds-keys-filterb, keys-filterb-Distinct, lookup-remove_each,
}
use chain_registry_core.Consensus.Pbft.Round.{
  PbftRound, Step, is_phase_timed_out, trigger_view_change,
}
use chain_registry_core.Consensus.Pbft.Engine.{
  PbftEngine, on_round, change_views, timeout_rounds, timed_out_hashes, is_stale, stale_hashes,
  cleanup_stale_rounds,
}

lookup-on_round :
    {A : Type 0} (f : PbftRound → Step A) (hash k : Text) (g : PbftEngine)
    → lookup k (on_round f hash g).1.rounds ≡ (
        if k == hash
        then elim (lookup k g.rounds) [ none ↦ none | some r ↦ some (f r).1 ]
        else lookup k g.rounds)
lookup-on_round f hash k g = elim (Option-cases (lookup hash g.rounds)) [
  | inl missing ↦ ground (arith, text_beq_iff k hash)
  | inr (r, found) ↦ ground (arith, text_beq_iff k hash, lookup-insert hash k (f r).1 g.rounds)
]

-- What a view change makes of a round that may be missing.
abbrev moved_on : ℕ → Option PbftRound → Option PbftRound
moved_on now none = none
moved_on now (some r) = some (trigger_view_change now r).1

lookup-change_views :
    (now : ℕ) (k : Text) (hashes : List Text) (g : PbftEngine)
    → Distinct hashes
    → lookup k (change_views now hashes g).1.rounds
      ≡ (if holds k hashes then moved_on now (lookup k g.rounds) else lookup k g.rounds)
unfolding change_views
lookup-change_views now k [] g d = refl
lookup-change_views now k (h ∷ hs) g d =
    let g' = (on_round (trigger_view_change now) h g).1 in
    lookup-change_views now k hs g' d.1
    ∙ ground (arith, lookup-on_round (trigger_view_change now) h k g, text_beq_iff k h)

-- A sweep for timeouts puts every round whose phase has timed out through one view change, and
-- leaves every other round as it is.
pub lookup-timeout_rounds :
    (now : ℕ) (k : Text) (g : PbftEngine)
    → IsMap g.rounds
    → lookup k (timeout_rounds now g).1.rounds ≡ elim (lookup k g.rounds) [
      | none ↦ none
      | some r ↦ if is_phase_timed_out now r then some (trigger_view_change now r).1 else some r
    ]
unfolding timeout_rounds timed_out_hashes
lookup-timeout_rounds now k g one =
    lookup-change_views now k (timed_out_hashes now g.rounds) g
      (keys-filterb-Distinct (is_phase_timed_out now) g.rounds one)
    ∙ ground (arith, holds-keys-filterb (is_phase_timed_out now) k g.rounds one)

length-keys-filterb :
    {V : Type 0} (p : V → Bool) (m : Map Text V)
    → length (keys (filterb (λ (t : Text × V). p t.1) m)) ≡ count (λ (t : Text × V). p t.1) m
length-keys-filterb p [] = refl
length-keys-filterb p ((k, v) ∷ m) = ground (arith, length-keys-filterb p m)

-- A cleanup removes exactly the terminal rounds older than the time to live, and returns their
-- number.
cleanup_removes_stale :
    (now : ℕ) (k : Text) (g : PbftEngine)
    → IsMap g.rounds
    → (lookup k (cleanup_stale_rounds now g).1.rounds ≡ elim (lookup k g.rounds) [
      | none ↦ none
      | some r ↦ if is_stale g.config.stale_round_ttl now r then none else some r
    ])
      × ((cleanup_stale_rounds now g).0
          ≡ count (λ (t : Text × PbftRound). is_stale g.config.stale_round_ttl now t.1) g.rounds)
unfolding cleanup_stale_rounds stale_hashes
cleanup_removes_stale now k g one =
    let stale = is_stale g.config.stale_round_ttl now in
    (
      lookup-remove_each k (stale_hashes now g) g.rounds
          ∙ ground (arith, holds-keys-filterb stale k g.rounds one),
      length-keys-filterb stale g.rounds,
    )

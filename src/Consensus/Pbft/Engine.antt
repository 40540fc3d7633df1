-- ===== src/Consensus/Pbft/Engine.antt =====
-- crates/consensus/src/pbft.rs: the engine, which keeps a round for each block hash.
use chain_registry_core.Prelude.{
  ℕ, ◌-◌, Bool, ◌&&◌, Option, none, some, List, [], ◌∷◌, Text, text_eq, ltb, if◌then◌else◌, length,
  filterb, Result, ok, err,
}
use chain_registry_core.Prelude.Map.{Map, keys, lookup, insert}
use chain_registry_core.Prelude.Keys.{remove_each}
use chain_registry_core.Common.Block.{Block, BlockSignature}
use chain_registry_core.Common.External.{External, block_hash}
use chain_registry_core.Consensus.ValidatorSet.{ValidatorSet}
use chain_registry_core.Consensus.Pbft.Round.{
  PbftError, no_round, PbftConfig, PbftPhase, PbftRound, Step, with_config, same_phase, propose,
  receive_prepare, receive_commit, finalised_signatures, is_terminal, is_phase_timed_out,
  trigger_view_change, record_view_change,
}

pub record ViewChangeSignal : Type 0 where
  pub block_hash : Text
  pub new_view : ℕ

pub record PbftEngine : Type 0 where
  pub rounds : Map Text PbftRound
  pub config : PbftConfig

-- `PbftEngine::with_config`
unfoldable pub new_engine : PbftConfig → PbftEngine
new_engine config = record { rounds = []; config = config }

-- A call on the round of a block hash, through `get_mut`.
abbrev pub on_round :
    {A : Type 0} → (PbftRound → Step A) → Text → PbftEngine → Result PbftError A × PbftEngine
on_round f hash g = elim (lookup hash g.rounds) [
  | none ↦ (err no_round, g)
  | some r ↦ ((f r).0, record g { rounds = insert hash (f r).1 g.rounds })
]

module _ (x : External) where
  unfoldable pub start_round :
      ℕ → Block → ValidatorSet → PbftEngine → Result PbftError Text × PbftEngine
  start_round now block vs g =
      let hash = block_hash x block in
      let (result, r) =
        propose x now block.header.proposer_id (with_config now block vs g.config) in
      elim result [
        | err e ↦ (err e, g)
        | ok _ ↦ (ok hash, record g { rounds = insert hash r g.rounds })
      ]

  -- `PbftEngine::prepare`
  unfoldable pub engine_prepare :
      ℕ → Text → Text → BlockSignature → PbftEngine → Result PbftError Bool × PbftEngine
  engine_prepare now hash vid sig = on_round (receive_prepare x now vid sig) hash

  -- `PbftEngine::commit`
  unfoldable pub engine_commit :
      Text → Text → BlockSignature → PbftEngine → Result PbftError Bool × PbftEngine
  engine_commit hash vid sig = on_round (receive_commit x vid sig) hash

unfoldable pub finalised_sigs : Text → PbftEngine → List BlockSignature
finalised_sigs hash g = elim (lookup hash g.rounds) [ none ↦ [] | some r ↦ finalised_signatures r ]

unfoldable pub get_finalised_block : Text → PbftEngine → Option Block
unfolding finalised_signatures
get_finalised_block hash g = elim (lookup hash g.rounds) [
  | none ↦ none
  | some r ↦
      if same_phase r.phase PbftPhase.finalised
      then some (record (r.block) { pbft_signatures = finalised_signatures r })
      else none
]

-- The loop of `timeout_rounds` over the hashes that it collected.
unfoldable pub change_views : ℕ → List Text → PbftEngine → List ViewChangeSignal × PbftEngine
change_views now [] g = ([], g)
change_views now (hash ∷ hashes) g =
    let (result, g') = on_round (trigger_view_change now) hash g in
    let (signals, g'') = change_views now hashes g' in
    (
      elim result [
        | ok new_view ↦ record { block_hash = hash; new_view = new_view } ∷ signals
        | err _ ↦ signals
      ],
      g'',
    )

unfoldable pub timed_out_hashes : ℕ → Map Text PbftRound → List Text
unfolding is_phase_timed_out
timed_out_hashes now m = keys (filterb (λ (e : Text × PbftRound). is_phase_timed_out now e.1) m)

unfoldable pub timeout_rounds : ℕ → PbftEngine → List ViewChangeSignal × PbftEngine
unfolding change_views timed_out_hashes
timeout_rounds now g = change_views now (timed_out_hashes now g.rounds) g

unfoldable pub receive_view_change :
    ℕ → Text → Text → ℕ → PbftEngine → Result PbftError Bool × PbftEngine
receive_view_change now hash vid new_view = on_round (record_view_change now vid new_view) hash

-- A terminal round older than the time to live.
unfoldable pub is_stale : ℕ → ℕ → PbftRound → Bool
unfolding is_terminal
is_stale ttl now r = is_terminal r && ltb ttl (now - r.created_at)

unfoldable pub stale_hashes : ℕ → PbftEngine → List Text
unfolding is_stale
stale_hashes now g =
    keys (filterb (λ (e : Text × PbftRound). is_stale g.config.stale_round_ttl now e.1) g.rounds)

unfoldable pub cleanup_stale_rounds : ℕ → PbftEngine → ℕ × PbftEngine
cleanup_stale_rounds now g =
    let stale = stale_hashes now g in
    (length stale, record g { rounds = remove_each stale g.rounds })

unfoldable pub active_round_count : PbftEngine → ℕ
active_round_count g = length g.rounds

-- ===== src/Consensus/Pbft/Tests.antt =====
-- A round of four validators, and the theorems on PBFT at it.
use chain_registry_core.Prelude.{
  ◌≡◌, refl, true, false, none, some, List, [], ◌∷◌, ◌++◌, Text, txt, arith, text_beq, text_eq,
  nat_eq, if◌then◌else◌,
}
use chain_registry_core.Prelude.Map.{lookup}
use chain_registry_core.Prelude.Sort.{min_by}
use chain_registry_core.Common.Block.{Block, BlockSignature}
use chain_registry_core.Common.External.{block_hash}
use chain_registry_core.Common.Sample.{sample}
use chain_registry_core.Consensus.ValidatorSet.{
  ValidatorInfo, ValidatorSet, active_count, is_member, active,
}
use chain_registry_core.Consensus.Vrf.{select_proposer_deterministic}
use chain_registry_core.Consensus.Pbft.Round.{
  PbftConfig, PbftPhase, PbftRound, quorum, with_config, check_signature, check_proposal,
  verify_block_signature, propose, receive_prepare, receive_commit, store_prepare, store_commit,
  trigger_view_change, is_phase_timed_out,
}
use chain_registry_core.Consensus.Pbft.Engine.{
  PbftEngine, new_engine, start_round, engine_prepare, engine_commit, get_finalised_block,
  timeout_rounds,
}
use chain_registry_core.Consensus.Pbft.Invariant.{
  IsValid, proposed, prepared, run, reachable-IsValid,
}
use chain_registry_core.Consensus.Pbft.Safety.{finalised_agreement}
use chain_registry_core.Consensus.Pbft.Certified.{
  Call, start, prepare, commit, apply_all, IsCertified, finalised_block-IsCertified,
}
use chain_registry_core.Consensus.Pbft.Liveness.{Votes, prepares, commits, honest_round_finalises}
use chain_registry_core.Consensus.Pbft.Timeout.{lookup-timeout_rounds}
use chain_registry_core.Consensus.Pbft.ViewChange.{IsSameView, certify, few_certificates_keep_view}
use chain_registry_core.Consensus.Pbft.Reset.{call_for, finalised_round_reset}

abbrev member : Text → Text → Text × ValidatorInfo
member id key = (
  id,
  record {
    id = id;
    pubkey = key;
    eth_address = none;
    stake = 100;
    reputation = 50;
    is_active = true;
  },
)

abbrev four : ValidatorSet
four = record {
  validators =
      member (txt "v1") (txt "a")
      ∷ member (txt "v2") (txt "b")
      ∷ member (txt "v3") (txt "c")
      ∷ member (txt "v4") (txt "d")
      ∷ [];
}

abbrev block : Block
block = record {
  header = record {
    height = 1;
    prev_hash = txt "p";
    merkle_root = txt "h";
    proposer_id = txt "v1";
    timestamp = 0;
    validator_set_hash = [];
    vrf_output = none;
    vrf_proof = none;
  };
  transactions = [];
  pbft_signatures = [];
}

abbrev config : PbftConfig
config = record {
  round_phase_timeout = 30;
  max_view_changes = 3;
  stale_round_ttl = 120;
  allow_small_cluster_quorum = false;
}

abbrev vote : Text → Text → Text → Text × BlockSignature
vote id key phase = (
  id,
  record {
    validator_id = id;
    pubkey = key;
    signature = key ++ (txt "creg-pbft-v1:" ++ (phase ++ txt ":h"));
  },
)

abbrev first_three : Text → Votes
first_three phase =
    vote (txt "v1") (txt "a") phase
    ∷ vote (txt "v2") (txt "b") phase
    ∷ vote (txt "v3") (txt "c") phase
    ∷ []

abbrev last_three : Text → Votes
last_three phase =
    vote (txt "v2") (txt "b") phase
    ∷ vote (txt "v3") (txt "c") phase
    ∷ vote (txt "v4") (txt "d") phase
    ∷ []

abbrev fresh_round : PbftRound
fresh_round = record {
  block = block;
  phase = PbftPhase.pre_prepare;
  prepare_sigs = [];
  commit_sigs = [];
  validator_set = four;
  phase_entered_at = 0;
  view_number = 0;
  view_change_count = 0;
  created_at = 0;
  config = config;
  view_change_votes = [];
}

abbrev finalised_with : Votes → PbftRound
finalised_with cs = record fresh_round {
  phase = PbftPhase.finalised;
  prepare_sigs = first_three (txt "prepare");
  commit_sigs = cs;
}

finalised_first-IsValid : IsValid sample (finalised_with (first_three (txt "commit")))
unfolding check_signature verify_block_signature quorum active_count block_hash
finalised_first-IsValid = record {
  prepares_once = (refl, (refl, (refl, tt)));
  commits_once = (refl, (refl, (refl, tt)));
  prepares_signed = (refl, (refl, (refl, tt)));
  commits_signed = (refl, (refl, (refl, tt)));
  progress = omega arith;
  views = refl;
  budget = omega arith;
  no_overflow = omega arith;
}

finalised_last-IsValid : IsValid sample (finalised_with (last_three (txt "commit")))
unfolding check_signature verify_block_signature quorum active_count block_hash
finalised_last-IsValid = record {
  prepares_once = (refl, (refl, (refl, tt)));
  commits_once = (refl, (refl, (refl, tt)));
  prepares_signed = (refl, (refl, (refl, tt)));
  commits_signed = (refl, (refl, (refl, tt)));
  progress = omega arith;
  views = refl;
  budget = omega arith;
  no_overflow = omega arith;
}

-- A valid round after the events that start it and bring the first prepare.
reachable-IsValid_example : IsValid sample (
    run sample
      (proposed 1 (txt "v1")
        ∷ prepared 2 (txt "v2") (vote (txt "v2") (txt "b") (txt "prepare")).1
        ∷ [])
      (with_config 0 block four config))
reachable-IsValid_example = reachable-IsValid sample 0 block four config _ (omega arith)

finalised_agreement_example : block_hash sample block ≡ block_hash sample block
unfolding active_count
finalised_agreement_example =
    finalised_agreement sample (λ id. text_beq id (txt "v2"))
      (finalised_with (first_three (txt "commit"))) (finalised_with (last_three (txt "commit")))
      finalised_first-IsValid finalised_last-IsValid refl refl refl refl refl (omega arith)
      (λ id a b good signed_a signed_b. refl)

honest_round_finalises_example :
    (run sample
      (proposed 1 (txt "v1") ∷ prepares 1 (first_three (txt "prepare"))
        ++ commits (last_three (txt "commit")))
      (with_config 1 block four config)).phase
    ≡ PbftPhase.finalised
unfolding with_config check_proposal is_member active select_proposer_deterministic min_by quorum
    active_count check_signature block_hash
honest_round_finalises_example =
    honest_round_finalises sample 1 block four config (first_three (txt "prepare"))
      (last_three (txt "commit")) refl (refl, (refl, (refl, tt))) (refl, (refl, (refl, tt)))
      (refl, (refl, (refl, tt))) (refl, (refl, (refl, tt))) (omega arith) (omega arith)

-- The calls that finalise the block.
abbrev calls : List Call
calls =
    start 0 block four
    ∷ prepare 1 (txt "h") (txt "v1") (vote (txt "v1") (txt "a") (txt "prepare")).1
    ∷ prepare 1 (txt "h") (txt "v2") (vote (txt "v2") (txt "b") (txt "prepare")).1
    ∷ prepare 1 (txt "h") (txt "v3") (vote (txt "v3") (txt "c") (txt "prepare")).1
    ∷ commit (txt "h") (txt "v2") (vote (txt "v2") (txt "b") (txt "commit")).1
    ∷ commit (txt "h") (txt "v3") (vote (txt "v3") (txt "c") (txt "commit")).1
    ∷ commit (txt "h") (txt "v4") (vote (txt "v4") (txt "d") (txt "commit")).1
    ∷ []

abbrev certified : Block
certified = record block {
  pbft_signatures =
      (vote (txt "v2") (txt "b") (txt "commit")).1
      ∷ (vote (txt "v3") (txt "c") (txt "commit")).1
      ∷ (vote (txt "v4") (txt "d") (txt "commit")).1
      ∷ [];
}

finalised_block-IsCertified_example :
    (r : PbftRound) × (lookup (txt "h") (apply_all sample calls (new_engine config)).rounds
      ≡ some r)
    × IsCertified sample (txt "h") r certified
unfolding apply_all start_round engine_prepare engine_commit get_finalised_block new_engine
    with_config propose check_proposal is_member active select_proposer_deterministic min_by
    receive_prepare receive_commit verify_block_signature check_signature store_prepare store_commit
    active_count block_hash
finalised_block-IsCertified_example =
    finalised_block-IsCertified sample config calls (txt "h") certified (omega arith) refl

abbrev running : PbftEngine
running = record { rounds = (txt "h", fresh_round) ∷ []; config = config }

lookup-timeout_rounds_example : lookup (txt "h") (timeout_rounds 100 running).1.rounds ≡ (
    if is_phase_timed_out 100 fresh_round
    then some (trigger_view_change 100 fresh_round).1
    else some fresh_round)
lookup-timeout_rounds_example = lookup-timeout_rounds 100 (txt "h") running (refl, tt)

few_certificates_keep_view_example :
    IsSameView fresh_round (
      run sample
        (certify ((1, txt "v4", 1) ∷ (2, txt "v4", 2) ∷ (3, txt "v4", 1) ∷ []))
        fresh_round)
unfolding active_count
few_certificates_keep_view_example =
    few_certificates_keep_view sample (txt "v4" ∷ [])
      ((1, txt "v4", 1) ∷ (2, txt "v4", 2) ∷ (3, txt "v4", 1) ∷ []) fresh_round (omega arith) tt
      (refl, (refl, (refl, tt)))

abbrev done_round : PbftRound
done_round = finalised_with (first_three (txt "commit"))

finalised_round_reset_example :
    ((run sample (call_for 9 1 (txt "v1" ∷ [])) done_round).phase ≡ PbftPhase.finalised)
    × ((run sample (call_for 9 1 (txt "v1" ∷ [])) done_round).commit_sigs ≡ done_round.commit_sigs)
    × ((run sample (call_for 9 1 (txt "v1" ∷ txt "v2" ∷ [])) done_round).phase
        ≡ PbftPhase.pre_prepare)
    × ((run sample (call_for 9 1 (txt "v1" ∷ txt "v2" ∷ [])) done_round).commit_sigs ≡ [])
    × ((run sample (call_for 9 1 (txt "v1" ∷ txt "v2" ∷ [])) done_round).view_number ≡ 1)
unfolding active_count
finalised_round_reset_example =
    finalised_round_reset sample 9 1 (txt "v2") (txt "v1" ∷ []) done_round refl refl (omega arith)
      (omega arith) (refl, (refl, tt)) refl

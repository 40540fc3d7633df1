-- ===== src/Consensus/Pbft/Round.antt =====
-- crates/consensus/src/pbft.rs: one PBFT round and the messages that move it. A time is a number of
-- seconds, passed in as `now` where the source reads the clock.
use chain_registry_core.Prelude.{
  ℕ, ◌+◌, ◌-◌, ◌*◌, ◌/◌, Bool, true, false, ◌&&◌, Option, none, some, List, [], ◌++◌, map, Text,
  txt, text_beq, text_eq, nat_eq, nat_beq, to_ascii_lowercase, trim_start_0x, ltb, leb,
  if◌then◌else◌, length, incr32, Result, ok, err, ◌>>=◌, ◌>>◌,
}
use chain_registry_core.Prelude.Map.{Map, values, lookup, insert}
use chain_registry_core.Common.Block.{Block, BlockSignature}
use chain_registry_core.Common.External.{External, block_hash}
use chain_registry_core.Consensus.ValidatorSet.{
  ValidatorSet, ValidatorInfo, is_member, active_count, active,
}
use chain_registry_core.Consensus.Vrf.{
  VrfValidator, VrfError, verify, select_proposer_deterministic,
}

pub data PbftError : Type 0 where
  wrong_phase not_a_member not_active no_proposer not_selected : PbftError
  vrf_failed : VrfError → PbftError
  id_mismatch pubkey_mismatch : PbftError
  bad_pubkey_hex bad_pubkey bad_signature_hex bad_signature_format bad_signature : PbftError
  view_changes_exhausted no_round : PbftError

abbrev pub require : Bool → PbftError → Result PbftError (Unit {0})
require true e = ok tt
require false e = err e

abbrev pub or_error : {A : Type 0} → Option A → PbftError → Result PbftError A
or_error none e = err e
or_error (some a) e = ok a

pub record PbftConfig : Type 0 where
  pub round_phase_timeout : ℕ
  pub max_view_changes : ℕ
  pub stale_round_ttl : ℕ
  pub allow_small_cluster_quorum : Bool

pub data PbftPhase : Type 0 where
  pre_prepare prepare commit finalised failed : PbftPhase

abbrev pub same_phase : PbftPhase → PbftPhase → Bool
same_phase PbftPhase.pre_prepare PbftPhase.pre_prepare = true
same_phase PbftPhase.prepare PbftPhase.prepare = true
same_phase PbftPhase.commit PbftPhase.commit = true
same_phase PbftPhase.finalised PbftPhase.finalised = true
same_phase PbftPhase.failed PbftPhase.failed = true
same_phase _ _ = false

pub record PbftRound : Type 0 where
  pub block : Block
  pub phase : PbftPhase
  pub prepare_sigs : Map Text BlockSignature
  pub commit_sigs : Map Text BlockSignature
  pub validator_set : ValidatorSet
  pub phase_entered_at : ℕ
  pub view_number : ℕ
  pub view_change_count : ℕ
  pub created_at : ℕ
  pub config : PbftConfig
  -- view → the validators whose certificates for it have come in
  pub view_change_votes : Map ℕ (Map Text (Unit {0}))

-- `PbftRound::with_config`
unfoldable pub with_config : ℕ → Block → ValidatorSet → PbftConfig → PbftRound
with_config now block vs config = record {
  block = block;
  phase = PbftPhase.pre_prepare;
  prepare_sigs = [];
  commit_sigs = [];
  validator_set = vs;
  phase_entered_at = now;
  view_number = 0;
  view_change_count = 0;
  created_at = now;
  config = config;
  view_change_votes = [];
}

unfoldable pub quorum_threshold : ℕ → Bool → ℕ
quorum_threshold n allow_small_cluster =
    if nat_beq n 0 then 0 else if nat_beq n 3 && allow_small_cluster then 2 else 2 * n / 3 + 1

unfoldable pub quorum : PbftRound → ℕ
unfolding quorum_threshold
quorum r = quorum_threshold (active_count r.validator_set) r.config.allow_small_cluster_quorum

-- A step of a round: its result, and the round as the step leaves it.
abbrev pub Step : Type 0 → Type 0
Step A = Result PbftError A × PbftRound

unfoldable pub pbft_signature_message : Text → Text → Text
pbft_signature_message phase hash = txt "creg-pbft-v1" ++ (txt ":" ++ (phase ++ (txt ":" ++ hash)))

unfoldable pub normal_pubkey : Text → Text
unfolding to_ascii_lowercase trim_start_0x
normal_pubkey pubkey = to_ascii_lowercase (trim_start_0x pubkey)

unfoldable pub vrf_validator : ValidatorInfo → VrfValidator
vrf_validator v = record { id = v.id; pubkey = v.pubkey; vrf_output = none; vrf_proof = none }

abbrev pub vrf_result : Result VrfError (Unit {0}) → Result PbftError (Unit {0})
vrf_result (ok u) = ok u
vrf_result (err e) = err (vrf_failed e)

-- After the checks: the vote is stored, and the round moves on at a quorum.
unfoldable pub store_prepare : ℕ → Text → BlockSignature → PbftRound → Step Bool
unfolding quorum
store_prepare now validator_id sig r =
    let r' : PbftRound = record r { prepare_sigs = insert validator_id sig r.prepare_sigs } in
    if leb (quorum r) (length r'.prepare_sigs)
    then (ok true, record r' { phase = PbftPhase.commit; phase_entered_at = now })
    else (ok false, r')

-- The second test repeats the first; its `else` is never taken.
unfoldable pub store_commit : Text → BlockSignature → PbftRound → Step Bool
unfolding quorum
store_commit validator_id sig r =
    let r' : PbftRound = record r { commit_sigs = insert validator_id sig r.commit_sigs } in
    if leb (quorum r) (length r'.commit_sigs)
    then (if leb (quorum r) (length r'.commit_sigs)
        then (ok true, record r' { phase = PbftPhase.finalised })
        else (ok false, record r' { phase = PbftPhase.failed }))
    else (ok false, r')

module _ (x : External) where
  open x use {hex_decode, is_verifying_key, is_signature, ed25519_verify}

  unfoldable pub verify_pbft_phase_signature :
      Text → Text → Text → Text → Result PbftError (Unit {0})
  unfolding normal_pubkey pbft_signature_message trim_start_0x
  verify_pbft_phase_signature phase hash pubkey_hex signature_hex = do
    pubkey ← or_error (hex_decode (normal_pubkey pubkey_hex)) bad_pubkey_hex
    require (is_verifying_key pubkey) bad_pubkey
    signature ← or_error (hex_decode (trim_start_0x signature_hex)) bad_signature_hex
    require (is_signature signature) bad_signature_format
    require (ed25519_verify pubkey (pbft_signature_message phase hash) signature) bad_signature

  -- `verify_block_signature` reads the validator set and the block's hash alone.
  unfoldable pub check_signature :
      ValidatorSet → Text → Text → Text → BlockSignature → Result PbftError (Unit {0})
  unfolding verify_pbft_phase_signature normal_pubkey
  check_signature vs hash phase validator_id sig = do
    require (text_beq sig.validator_id validator_id) id_mismatch
    validator ← or_error (lookup validator_id vs.validators) not_a_member
    require validator.is_active not_active
    require (text_beq (normal_pubkey sig.pubkey) (normal_pubkey validator.pubkey)) pubkey_mismatch
    verify_pbft_phase_signature phase hash (normal_pubkey validator.pubkey) sig.signature

  unfoldable pub verify_block_signature :
      PbftRound → Text → Text → BlockSignature → Result PbftError (Unit {0})
  verify_block_signature r phase validator_id sig =
      check_signature r.validator_set (block_hash x r.block) phase validator_id sig

  -- The proposer's proof, where the block carries both an output and a proof.
  unfoldable pub check_vrf : PbftRound → Text → Result PbftError (Unit {0})
  check_vrf r proposer_id = elim r.block.header.vrf_proof [
    | none ↦ ok tt
    | some proof ↦ elim r.block.header.vrf_output [
      | none ↦ ok tt
      | some output ↦ do
        validator ← or_error (lookup proposer_id r.validator_set.validators) not_a_member
        vrf_result (verify x r.block.header.prev_hash validator.pubkey output proof)
    ]
  ]

  -- The checks of `pre_prepare`, before it changes the round.
  unfoldable pub check_proposal : PbftRound → Text → Result PbftError (Unit {0})
  unfolding check_vrf vrf_validator
  check_proposal r proposer_id = do
    require (same_phase r.phase PbftPhase.pre_prepare) wrong_phase
    require (is_member proposer_id r.validator_set) not_a_member
    check_vrf r proposer_id
    selected ←
        or_error
          (select_proposer_deterministic x (map vrf_validator (active r.validator_set))
            r.block.header.prev_hash)
          no_proposer
    require (text_beq selected proposer_id) not_selected

  -- `PbftRound::pre_prepare`
  unfoldable pub propose : ℕ → Text → PbftRound → Step Text
  propose now proposer_id r = elim (check_proposal r proposer_id) [
    | err e ↦ (err e, r)
    | ok _ ↦
        (ok (block_hash x r.block), record r { phase = PbftPhase.prepare; phase_entered_at = now })
  ]

  unfoldable pub receive_prepare : ℕ → Text → BlockSignature → PbftRound → Step Bool
  receive_prepare now validator_id sig r =
      let checked : Result PbftError (Unit {0}) =
        require (same_phase r.phase PbftPhase.prepare) wrong_phase
        >> verify_block_signature r (txt "prepare") validator_id sig in
      elim checked [ err e ↦ (err e, r) | ok _ ↦ store_prepare now validator_id sig r ]

  unfoldable pub receive_commit : Text → BlockSignature → PbftRound → Step Bool
  receive_commit validator_id sig r =
      let checked : Result PbftError (Unit {0}) =
        require (same_phase r.phase PbftPhase.commit) wrong_phase
        >> verify_block_signature r (txt "commit") validator_id sig in
      elim checked [ err e ↦ (err e, r) | ok _ ↦ store_commit validator_id sig r ]

unfoldable pub finalised_signatures : PbftRound → List BlockSignature
finalised_signatures r = values r.commit_sigs

unfoldable pub is_terminal : PbftRound → Bool
is_terminal r = elim r.phase [ PbftPhase.finalised ↦ true | PbftPhase.failed ↦ true | _ ↦ false ]

unfoldable pub is_phase_timed_out : ℕ → PbftRound → Bool
is_phase_timed_out now r = elim r.phase [
  | PbftPhase.finalised ↦ false
  | PbftPhase.failed ↦ false
  | _ ↦ ltb r.config.round_phase_timeout (now - r.phase_entered_at)
]

unfoldable pub trigger_view_change : ℕ → PbftRound → Step ℕ
trigger_view_change now r =
    if leb r.config.max_view_changes r.view_change_count
    then (err view_changes_exhausted, record r { phase = PbftPhase.failed })
    else (
      ok (incr32 r.view_number),
      record r {
        view_change_count = incr32 r.view_change_count;
        view_number = incr32 r.view_number;
        prepare_sigs = [];
        commit_sigs = [];
        phase = PbftPhase.pre_prepare;
        phase_entered_at = now;
      },
    )

-- The certificates for a view, with one more.
unfoldable pub certificates : PbftRound → Text → ℕ → Map Text (Unit {0})
certificates r validator_id new_view =
    let old : Map Text (Unit {0}) = elim (lookup new_view r.view_change_votes) [
      | none ↦ []
      | some votes ↦ votes
    ] in
    insert validator_id tt old

unfoldable pub add_certificate : Text → ℕ → PbftRound → PbftRound
unfolding certificates
add_certificate validator_id new_view r = record r {
  view_change_votes = insert new_view (certificates r validator_id new_view) r.view_change_votes;
}

-- Whether the certificates, with the one that came in, are enough for a view that is new.
unfoldable pub enough_certificates : PbftRound → Text → ℕ → Bool
unfolding certificates
enough_certificates r validator_id new_view =
    leb (active_count r.validator_set / 3 + 1) (length (certificates r validator_id new_view))
    && ltb r.view_number new_view

unfoldable pub record_view_change : ℕ → Text → ℕ → PbftRound → Step Bool
record_view_change now validator_id new_view r =
    let r' = add_certificate validator_id new_view r in
    let changed = trigger_view_change now r' in
    if enough_certificates r validator_id new_view
    then (elim changed.0 [ ok _ ↦ ok true | err e ↦ err e ], changed.1)
    else (ok false, r')

-- ===== src/Consensus/Pbft/Invariant.antt =====
-- What holds of a PBFT round after every step: crates/consensus/src/pbft.rs.
use chain_registry_core.Prelude.{
  ℕ, ◌^◌, ◌≤◌, ◌<◌, ◌≡◌, refl, inl, inr, true, List, [], ◌∷◌, Text, txt, text_eq, Bool-cases,
  length, arith, All, ok, Result-cases,
}
use chain_registry_core.Prelude.Map.{IsMap, insert-IsMap, length-insert, insert-All}
use chain_registry_core.Common.Block.{Block, BlockSignature}
use chain_registry_core.Common.External.{External, block_hash}
use chain_registry_core.Consensus.ValidatorSet.{ValidatorSet, active_count, is_member}
use chain_registry_core.Consensus.ValidatorSet.Membership.{is_member-active_count}
use chain_registry_core.Consensus.Pbft.Round.{
  PbftConfig, PbftPhase, PbftRound, with_config, quorum, propose, check_proposal, check_signature,
  verify_block_signature, store_prepare, store_commit, receive_prepare, receive_commit,
  trigger_view_change, record_view_change, add_certificate, enough_certificates,
}

-- How far the two votes have come, for a phase and a quorum.
abbrev pub Progress : PbftPhase → ℕ → ℕ → ℕ → Type 0
Progress PbftPhase.pre_prepare q p c = (p ≡ 0) × (c ≡ 0)
Progress PbftPhase.prepare q p c = (p < q) × (c ≡ 0)
Progress PbftPhase.commit q p c = (q ≤ p) × (c < q)
Progress PbftPhase.finalised q p c = (1 ≤ q) × (q ≤ p) × (q ≤ c)
Progress PbftPhase.failed q p c = Unit {0}

module _ (x : External) where
  -- A stored vote: its signature passes the checks for the phase, set and hash.
  abbrev pub Signed : ValidatorSet → Text → Text → Text × BlockSignature → Type 0
  Signed vs hash phase e = check_signature x vs hash phase e.0 e.1 ≡ ok tt

  pub record IsValid (r : PbftRound) : Type 0 where
    pub prepares_once : IsMap r.prepare_sigs
    pub commits_once : IsMap r.commit_sigs
    pub prepares_signed :
        All (Signed r.validator_set (block_hash x r.block) (txt "prepare")) r.prepare_sigs
    pub commits_signed :
        All (Signed r.validator_set (block_hash x r.block) (txt "commit")) r.commit_sigs
    pub progress : Progress r.phase (quorum r) (length r.prepare_sigs) (length r.commit_sigs)
    pub views : r.view_number ≡ r.view_change_count
    pub budget : r.view_change_count ≤ r.config.max_view_changes
    pub no_overflow : r.config.max_view_changes < 2 ^ 32

  pub with_config-IsValid :
      (now : ℕ) (b : Block) (vs : ValidatorSet) (config : PbftConfig)
      → config.max_view_changes < 2 ^ 32
      → IsValid (with_config now b vs config)
  unfolding with_config
  with_config-IsValid now b vs config h = record {
    prepares_once = tt;
    commits_once = tt;
    prepares_signed = tt;
    commits_signed = tt;
    progress = (refl, refl);
    views = refl;
    budget = omega arith;
    no_overflow = h;
  }

  pub check_proposal-phase :
      (r : PbftRound) (id : Text) {u : Unit {0}}
      → check_proposal x r id ≡ ok u
      → (r.phase ≡ PbftPhase.pre_prepare) × (is_member id r.validator_set ≡ true)
  unfolding check_proposal
  check_proposal-phase r id h = ground arith

  pub quorum-pos : (r : PbftRound) → 1 ≤ active_count r.validator_set → 1 ≤ quorum r
  unfolding quorum
  quorum-pos r h = ground arith

  propose-IsValid :
      (now : ℕ) (id : Text) (r : PbftRound) → IsValid r → IsValid (propose x now id r).1
  unfolding propose quorum
  propose-IsValid now id r v = elim (Result-cases (check_proposal x r id)) [
    | inl (e, failed) ↦ rw (failed, propose) v
    | inr (u, passed) ↦
        let (ph, member) = check_proposal-phase r id passed in
        let some_active = is_member-active_count id r.validator_set member in
        rw (passed, propose) (ground (arith, quorum-pos r some_active, ph, v.progress))
  ]

  store_prepare-IsValid :
      (now : ℕ) (id : Text) (sig : BlockSignature) (r : PbftRound)
      → IsValid r
      → r.phase ≡ PbftPhase.prepare
      → Signed r.validator_set (block_hash x r.block) (txt "prepare") (id, sig)
      → IsValid (store_prepare now id sig r).1
  unfolding store_prepare
  store_prepare-IsValid now id sig r v ph s = ground (
    arith,
    insert-IsMap id sig r.prepare_sigs v.prepares_once,
    insert-All (Signed r.validator_set (block_hash x r.block) (txt "prepare")) id sig r.prepare_sigs
        s v.prepares_signed,
    length-insert id sig r.prepare_sigs,
  )

  store_commit-IsValid :
      (id : Text) (sig : BlockSignature) (r : PbftRound)
      → IsValid r
      → r.phase ≡ PbftPhase.commit
      → Signed r.validator_set (block_hash x r.block) (txt "commit") (id, sig)
      → IsValid (store_commit id sig r).1
  unfolding store_commit
  store_commit-IsValid id sig r v ph s = ground (
    arith,
    insert-IsMap id sig r.commit_sigs v.commits_once,
    insert-All (Signed r.validator_set (block_hash x r.block) (txt "commit")) id sig r.commit_sigs s
        v.commits_signed,
    length-insert id sig r.commit_sigs,
  )

  trigger_view_change-IsValid :
      (now : ℕ) (r : PbftRound) → IsValid r → IsValid (trigger_view_change now r).1
  unfolding trigger_view_change
  trigger_view_change-IsValid now r v = ground arith

  receive_prepare-IsValid :
      (now : ℕ) (id : Text) (sig : BlockSignature) (r : PbftRound)
      → IsValid r
      → IsValid (receive_prepare x now id sig r).1
  unfolding receive_prepare verify_block_signature
  receive_prepare-IsValid now id sig r v = ground (arith, store_prepare-IsValid now id sig r v)

  receive_commit-IsValid :
      (id : Text) (sig : BlockSignature) (r : PbftRound)
      → IsValid r
      → IsValid (receive_commit x id sig r).1
  unfolding receive_commit verify_block_signature
  receive_commit-IsValid id sig r v = ground (arith, store_commit-IsValid id sig r v)

  add_certificate-IsValid :
      (id : Text) (new_view : ℕ) (r : PbftRound)
      → IsValid r
      → IsValid (add_certificate id new_view r)
  unfolding add_certificate quorum
  add_certificate-IsValid id new_view r v = record {
    prepares_once = v.prepares_once;
    commits_once = v.commits_once;
    prepares_signed = v.prepares_signed;
    commits_signed = v.commits_signed;
    progress = v.progress;
    views = v.views;
    budget = v.budget;
    no_overflow = v.no_overflow;
  }

  record_view_change-IsValid :
      (now : ℕ) (id : Text) (new_view : ℕ) (r : PbftRound)
      → IsValid r
      → IsValid (record_view_change now id new_view r).1
  unfolding record_view_change
  record_view_change-IsValid now id new_view r v =
      let v' = add_certificate-IsValid id new_view r v in
      elim (Bool-cases (enough_certificates r id new_view)) [
        | inl e ↦ rw (e, record_view_change) (trigger_view_change-IsValid now _ v')
        | inr e ↦ rw (e, record_view_change) v'
      ]

-- One message or timeout that a round takes in.
pub data Event : Type 0 where
  proposed : ℕ → Text → Event
  prepared : ℕ → Text → BlockSignature → Event
  committed : Text → BlockSignature → Event
  timed_out : ℕ → Event
  view_certified : ℕ → Text → ℕ → Event

unfoldable pub after : External → Event → PbftRound → PbftRound
after x (proposed now id) r = (propose x now id r).1
after x (prepared now id sig) r = (receive_prepare x now id sig r).1
after x (committed id sig) r = (receive_commit x id sig r).1
after x (timed_out now) r = (trigger_view_change now r).1
after x (view_certified now id new_view) r = (record_view_change now id new_view r).1

unfoldable pub run : External → List Event → PbftRound → PbftRound
run x [] r = r
run x (e ∷ es) r = run x es (after x e r)

-- Each message and each timeout keeps a valid round valid, whether it is accepted or refused.
pub after-IsValid :
    (x : External) (e : Event) (r : PbftRound) → IsValid x r → IsValid x (after x e r)
unfolding after
after-IsValid x (proposed now id) r v = propose-IsValid x now id r v
after-IsValid x (prepared now id sig) r v = receive_prepare-IsValid x now id sig r v
after-IsValid x (committed id sig) r v = receive_commit-IsValid x id sig r v
after-IsValid x (timed_out now) r v = trigger_view_change-IsValid x now r v
after-IsValid x (view_certified now id new_view) r v =
    record_view_change-IsValid x now id new_view r v

run-IsValid :
    (x : External) (es : List Event) (r : PbftRound) → IsValid x r → IsValid x (run x es r)
unfolding run
run-IsValid x [] r v = v
run-IsValid x (e ∷ es) r v = run-IsValid x es (after x e r) (after-IsValid x e r v)

-- A new round stays valid under every sequence of events, where the limit on view changes is a `u32`.
pub reachable-IsValid :
    (x : External) (now : ℕ) (b : Block) (vs : ValidatorSet) (config : PbftConfig) (es : List Event)
    → config.max_view_changes < 2 ^ 32
    → IsValid x (run x es (with_config now b vs config))
reachable-IsValid x now b vs config es h =
    run-IsValid x es _ (with_config-IsValid x now b vs config h)
